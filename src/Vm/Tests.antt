-- ===== src/Vm/Tests.antt =====
-- Page tables over the last pages of memory.
use os_labs.Prelude.{
  ℕ, suc, ◌+◌, ◌-◌, ◌*◌, ◌/◌, ◌≡◌, refl, ◌<◌, Bool, true, ◌&&◌, [], ◌∷◌, ltb, leb, ◌==◌,
  if◌then◌else◌, arith,
}
use os_labs.Kalloc.{page_size, Words, Kmem, kalloc, fill_page}
use os_labs.Kalloc.FreeList.{IsPage, Free}
use os_labs.Vm.{walk_step, walk_loop, walk, walkaddr, map_page, map_loop, mappages}
use os_labs.Panic.{Run, done, panics, out_of_fuel}
use os_labs.Vm.Space.{IsTree}
use os_labs.Vm.Map.{pages_after}
use os_labs.Vm.Create.{IsTree-root}
use os_labs.Vm.Translate.{mappages-walkaddr}
use os_labs.Vm.Bytes.{copyin, copyinstr}
use os_labs.Vm.Copy.{copyin-read_user, read_user}
use os_labs.Vm.Strings.{copyinstr-read_string, read_string}

-- The pages from the end of memory down.
abbrev page : ℕ → ℕ
page n = 0x88000000 - (n + 1) * 4096

-- Pages 1, 2 and 3 are free, and page 0 is a table without entries.
abbrev chain : Words
chain a = if a == page 1 then page 2 else if a == page 2 then page 3 else 0

abbrev memory : Kmem
memory = record { freelist = page 1; words = chain }

page-IsPage : (n : ℕ) → n < 4 → IsPage 0x80000000 (page n)
page-IsPage n h = record {
  aligned = omega (arith, h);
  low = omega (arith, h);
  high = omega (arith, h);
}

memory-Free : Free 0x80000000 memory (page 1 ∷ page 2 ∷ page 3 ∷ [])
memory-Free = record {
  linked = (refl, omega arith, (refl, omega arith, (refl, omega arith, refl)));
  pages = (
    page-IsPage 1 (omega arith),
    ((λ e. omega (arith, e)), ((λ e. omega (arith, e)), tt)),
    (
      page-IsPage 2 (omega arith),
      ((λ e. omega (arith, e)), tt),
      (page-IsPage 3 (omega arith), tt, tt),
    ),
  );
}

memory-IsTree : IsTree 0x80000000 memory (page 0) (page 1 ∷ page 2 ∷ page 3 ∷ [])
memory-IsTree =
    IsTree-root 0x80000000 (page 0) (page 1 ∷ page 2 ∷ page 3 ∷ []) memory
      (λ i h. ground (arith, h)) memory-Free (page-IsPage 0 (omega arith))
      ((λ e. omega (arith, e)), ((λ e. omega (arith, e)), ((λ e. omega (arith, e)), tt)))

abbrev mapped_of : Run (Bool × Kmem) → Kmem
mapped_of (done (ok, k)) = k
mapped_of panics = memory
mapped_of out_of_fuel = memory

abbrev mapped : Kmem
mapped = mapped_of (mappages 9 (page 0) 0x3000 8192 0x80100000 0x16 memory)

maps_two : mappages 9 (page 0) 0x3000 8192 0x80100000 0x16 memory ≡ done (true, mapped)
unfolding mappages map_loop map_page walk walk_loop walk_step kalloc fill_page
maps_two = refl

mappages-walkaddr_example : walkaddr (page 0) 0x4000 mapped ≡ (
    if leb (0x3000 / page_size) (0x4000 / page_size)
      && ltb (0x4000 / page_size) (0x3000 / page_size + suc (pages_after 0x3000 8192))
    then 0x80100000 + (0x4000 / page_size - 0x3000 / page_size) * page_size
    else walkaddr (page 0) 0x4000 memory)
mappages-walkaddr_example =
    mappages-walkaddr 0x80000000 (page 0) 9 0x3000 8192 0x80100000 0x16
      (page 1 ∷ page 2 ∷ page 3 ∷ []) memory mapped memory-IsTree (omega arith) (omega arith)
      (omega arith) refl (omega arith) (omega arith) refl maps_two 0x4000 (omega arith)

copyin-read_user_example :
    copyin 9 (page 0) 0x3ffe 8 mapped ≡ done (read_user mapped (page 0) 0x3ffe 8)
copyin-read_user_example = copyin-read_user 9 (page 0) 0x3ffe 8 mapped (omega arith)

copyinstr-read_string_example :
    copyinstr 9 (page 0) 0x3ffe 8 mapped ≡ done (read_string mapped (page 0) 0x3ffe 8)
copyinstr-read_string_example = copyinstr-read_string 9 (page 0) 0x3ffe 8 mapped (omega arith)
