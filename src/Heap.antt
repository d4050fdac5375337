-- ===== src/Heap.antt =====
-- heap.c: the kernel heap, a linked list of blocks in the order of their addresses. The headers are
-- a store from addresses to headers, so that a pointer to a block that has left the list still reads
-- and writes its header; what callers keep behind the headers is not modelled. A pointer is an
-- address, 0 for NULL. Each loop takes fuel, and `none` is fuel that ran out.
mod Tests
pub mod Align
pub mod Blocks
pub mod Claim
pub mod Exhausted
pub mod Fit
pub mod Joined
pub mod Malloc
pub mod Release
pub mod Tidy
use simple_kernel.Base.{
  ℕ, zero, suc, ◌+◌, ◌-◌, ◌*◌, ◌/◌, ◌^◌, Bool, true, false, ◌&&◌, ◌||◌, not, Option, none, some,
  bit_and, ltb, leb, ◌==◌, if◌then◌else◌, u64, add64, sub64,
}
use simple_kernel.Pmm.{Pmm, alloc_frames}

abbrev pub alignment : ℕ
alignment = 16

abbrev pub page_size : ℕ
page_size = 4096

abbrev pub min_split : ℕ
min_split = 32

-- `heap_block_t`, whose `free` is 0 or 1. Its size in bytes, with the padding.
pub record Header : Type 0 where
  pub size : ℕ
  pub next : ℕ
  pub free : Bool

abbrev pub header_size : ℕ
header_size = 24

-- The static variables, the headers, and the frame allocator below.
pub record Heap : Type 0 where
  pub header : ℕ → Header
  pub head : ℕ
  pub total_bytes : ℕ
  pub used_bytes : ℕ
  pub frames : Pmm

abbrev pub put_header : ℕ → Header → Heap → Heap
put_header p b h = record h { header = λ q. if p == q then b else h.header q }

pub align_up : ℕ → ℕ
align_up value = bit_and (sub64 (add64 value alignment) 1) (2 ^ 64 - 1 - (alignment - 1))

-- The loop of `heap_append_block`: the last block in front of `target`, and the one behind it.
pub find_place : ℕ → ℕ → ℕ → ℕ → Heap → Option (ℕ × ℕ)
find_place zero prev current target h = none
find_place (suc fuel) prev current target h = elim (not (current == 0) && ltb current target) [
  | true ↦ find_place fuel current (h.header current).next target h
  | false ↦ some (prev, current)
]

-- The writes behind that loop.
pub link : ℕ → ℕ × ℕ → Heap → Heap
link block (prev, current) h =
    let linked = put_header block (record (h.header block) { next = current }) h in
    if prev == 0
    then record linked { head = block }
    else put_header prev (record (linked.header prev) { next = block }) linked

pub append_block : ℕ → ℕ → Heap → Option Heap
append_block fuel block h =
    if h.head == 0
    then some (record h { head = block })
    else elim (find_place fuel 0 h.head block h) [
      | none ↦ none
      | some place ↦ some (link block place h)
    ]

-- The address behind the payload of a block, as `heap_coalesce` computes it.
abbrev pub block_end : ℕ → Heap → ℕ
block_end block h = add64 (add64 block header_size) (align_up (h.header block).size)

pub mergeable : ℕ → Heap → Bool
mergeable block h =
    let b = h.header block in
    let n = h.header b.next in b.free && (n.free && block_end block h == b.next)

pub merge_next : ℕ → Heap → Heap
merge_next block h =
    let b = h.header block in
    let n = h.header b.next in
    put_header block (record b { size = add64 b.size (add64 header_size n.size); next = n.next }) h

pub coalesce_from : ℕ → ℕ → Heap → Option Heap
coalesce_from zero block h = none
coalesce_from (suc fuel) block h = elim (block == 0 || (h.header block).next == 0) [
  | true ↦ some h
  | false ↦ elim (mergeable block h) [
    | true ↦ coalesce_from fuel block (merge_next block h)
    | false ↦ coalesce_from fuel (h.header block).next h
  ]
]

pub coalesce : ℕ → Heap → Option Heap
coalesce fuel h = coalesce_from fuel h.head h

abbrev pub pages_for : ℕ → ℕ
pages_for size = sub64 (add64 (align_up (add64 size header_size)) page_size) 1 / page_size

-- The region that the frame allocator gave becomes one free block of the list.
pub adopt : ℕ → ℕ → ℕ → Heap → Option Heap
adopt fuel region pages h =
    let size = sub64 (u64 (pages * page_size)) header_size in
    let fresh = put_header region (record { size = size; next = 0; free = true }) h in
    elim (append_block fuel region (record fresh { total_bytes = add64 fresh.total_bytes size })) [
      | none ↦ none
      | some appended ↦ coalesce fuel appended
    ]

-- The block that is returned, 0 where the frame allocator has no run of frames.
pub expand : ℕ → ℕ → Heap → Option (ℕ × Heap)
expand fuel size h =
    let pages = pages_for size in
    let (region, frames) = alloc_frames pages h.frames in
    if region == 0
    then some (0, record h { frames = frames })
    else elim (adopt fuel region pages (record h { frames = frames })) [
      | none ↦ none
      | some grown ↦ some (region, grown)
    ]

pub split_block : ℕ → ℕ → Heap → Heap
split_block block size h =
    let aligned_size = align_up size in
    let b = h.header block in
    if ltb b.size (add64 (add64 aligned_size header_size) min_split)
    then h
    else (let next = add64 (add64 block header_size) aligned_size in
        let tail =
          put_header next
            (record {
              size = sub64 (sub64 b.size aligned_size) header_size;
              next = b.next;
              free = true;
            })
            h in
        put_header block (record (tail.header block) { size = aligned_size; next = next }) tail)

unfoldable pub init : Heap → Heap
init h = record h { head = 0; total_bytes = 0; used_bytes = 0 }

-- The loop of `kmalloc`: the first free block that is large enough, 0 for none.
pub find_fit : ℕ → ℕ → ℕ → Heap → Option ℕ
find_fit zero size block h = none
find_fit (suc fuel) size block h = elim (block == 0) [
  | true ↦ some 0
  | false ↦ elim ((h.header block).free && leb size (h.header block).size) [
    | true ↦ some block
    | false ↦ find_fit fuel size (h.header block).next h
  ]
]

-- What `kmalloc` does with the block that it has settled on, in the list or from `heap_expand`.
pub claim_block : ℕ → ℕ → Heap → ℕ × Heap
claim_block block size h =
    let split = split_block block size h in
    let b = split.header block in
    let taken = put_header block (record b { free = false }) split in
    (add64 block header_size, record taken { used_bytes = add64 taken.used_bytes b.size })

pub kmalloc : ℕ → ℕ → Heap → Option (ℕ × Heap)
kmalloc fuel bytes h =
    if bytes == 0
    then some (0, h)
    else (let size = align_up bytes in
        elim (find_fit fuel size h.head h) [
          | none ↦ none
          | some found ↦
              if not (found == 0)
              then some (claim_block found size h)
              else elim (expand fuel size h) [
                | none ↦ none
                | some (block, grown) ↦
                    if block == 0 then some (0, grown) else some (claim_block block size grown)
              ]
        ])

-- The pointer, and how many bytes from it on are set to 0.
pub kcalloc : ℕ → ℕ → ℕ → Heap → Option (ℕ × ℕ × Heap)
kcalloc fuel count size h =
    if count == 0 || size == 0
    then some (0, 0, h)
    else (let total = u64 (count * size) in
        elim (kmalloc fuel total h) [
          | none ↦ none
          | some (ptr, h') ↦ some (ptr, (if ptr == 0 then 0 else total), h')
        ])

pub kfree : ℕ → ℕ → Heap → Option Heap
kfree fuel ptr h =
    if ptr == 0
    then some h
    else (let block = sub64 ptr header_size in
        let b = h.header block in
        if b.free
        then some h
        else (let given = put_header block (record b { free = true }) h in
            coalesce fuel (record given { used_bytes = sub64 given.used_bytes b.size })))

pub free_bytes : Heap → ℕ
free_bytes h = sub64 h.total_bytes h.used_bytes
