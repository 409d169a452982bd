-- ===== src/File/Open.antt =====
-- What the openers of a file set in it: `sys_open` of kernel/sysfile.c and `pipealloc` of
-- kernel/pipe.c.
use os_labs.Prelude.{ℕ, ◌/◌, ◌%◌, Bool, true, false, not, ◌||◌, ◌==◌, if◌then◌else◌}
use os_labs.File.{File, fd_pipe, fd_inode, fd_device}

-- `sys_open` with mode `omode`, for a device or another inode; O_WRONLY is 1 and O_RDWR is 2.
abbrev pub open_inode : (is_device : Bool) → (ip major omode : ℕ) → File → File
open_inode is_device ip major omode f =
    let g : File =
      if is_device
      then record f { type = fd_device; major = major }
      else record f { type = fd_inode; off = 0 } in
    record g {
      ip = ip;
      readable = not (omode % 2 == 1);
      writable = omode % 2 == 1 || omode / 2 % 2 == 1;
    }

-- The two files of `pipealloc`: the one that is read and the one that is written.
abbrev pub read_end : (pi : ℕ) → File → File
read_end pi f = record f { type = fd_pipe; readable = true; writable = false; pipe = pi }

abbrev pub write_end_of : (pi : ℕ) → File → File
write_end_of pi f = record f { type = fd_pipe; readable = false; writable = true; pipe = pi }
