-- ===== src/Dma/Create/Total.antt =====
-- `bf_sys_dma_pool_create` on arguments that pass its checks, and on those that do not.
use mathlib.Core.Path.{subst}
use target_syslibs.Base.{
  ◌⊎◌, inl, inr, ℕ, ◌+◌, ◌-◌, ◌/◌, ◌^◌, ◌≤◌, ◌<◌, ◌≡◌, ◌≢◌, refl, ap, ◌∙◌, Bool, true, false, not,
  Option, none, some, bit_and, ◌==◌, leb, le→leb, lt→not-leb, le→not-ltb, lt→ltb, eq→==, ne→not-==,
  if◌then◌else◌, arith,
}
use target_syslibs.Base.Outcome.{Outcome, done, aborted, faulted}
use target_syslibs.Base.Bits.{bit_and_low_mask, bit_and_pred, pow-le, pow-mod}
use target_syslibs.Base.Words.{u32, add64, mul64, sign_extend}
use target_syslibs.Dma.Align.{
  huge_page_size, pool_hdr_size, align_to_bf_page_size, conv_to_next_aligned,
}
use target_syslibs.Dma.Align.Laws.{
  IsNextMultiple, conv_to_next_aligned_pow, conv_to_next_aligned-zero,
}
use target_syslibs.Dma.Pool.{Pool, invalid_phy_addr}
use target_syslibs.Dma.Address.{bf_mem_virt2phy}
use target_syslibs.Dma.Machine.{Machine, System, check, pure, ◌>>◌}
use target_syslibs.Dma.Machine.Lawful.{IsLawful}
use target_syslibs.Dma.Machine.Laws.{with_block, Ends}
use target_syslibs.Dma.Create.{Args, filled, header_for, reserve_pool, bf_sys_dma_pool_create}
use target_syslibs.Dma.Create.Post.{Created}
use target_syslibs.Dma.Create.Checks.{
  aligned_size, AlignedTo, PoolResult, bf_sys_dma_pool_create_lem,
}
use target_syslibs.Dma.Create.Steps.{with_region}
use target_syslibs.Dma.Create.Identity.{identity_pages}
use target_syslibs.Dma.Create.Runs.{reserve_pool-some, no_table-faulted}

-- A handle, an alignment that is 0 or a power of two up to 4 KB, a size of at most a huge page.
pub record IsAccepted (a : Args) : Type 0 where
  pub handle : a.hndl ≢ 0
  pub align_ok : (a.align ≡ 0) ⊎ ((k : ℕ) × (k ≤ 12) × (a.align ≡ 2 ^ k))
  pub size_small : a.size ≤ huge_page_size

pow_pred : (k : ℕ) → k < 32 → bit_and (2 ^ k) (u32 (2 ^ k + 2 ^ 32 - 1)) ≡ 0
pow_pred k h =
    ap (bit_and (2 ^ k)) {y = 2 ^ k - 1}
      (omega (arith, pow-le k 31 (omega arith), pow-le 0 k (omega arith)))
    ∙ (bit_and_low_mask k (2 ^ k) ∙ pow-mod k k (omega arith))

is_power :
    (a : Args) (k : ℕ) → k < 32 → a.align ≡ 2 ^ k → bit_and a.align (u32 (a.align + 2 ^ 32 - 1)) ≡ 0
is_power a k h e = ap (λ x. bit_and x (u32 (x + 2 ^ 32 - 1))) e ∙ pow_pred k h

accepted_power : (a : Args) → IsAccepted a → bit_and a.align (u32 (a.align + 2 ^ 32 - 1)) ≡ 0
accepted_power a acc = elim acc.align_ok [
  | inl z ↦ rw z refl
  | inr (k, le, e) ↦ is_power a k (omega (arith, le)) e
]

accepted_align : (a : Args) → IsAccepted a → a.align ≤ 4096
accepted_align a acc = elim acc.align_ok [
  | inl z ↦ omega (arith, z)
  | inr (k, le, e) ↦ omega (arith, e, pow-le k 12 le)
]

create-reserve_pool :
    (s : System) (a : Args) (m : Machine)
    → IsAccepted a
    → bf_sys_dma_pool_create s a m ≡ reserve_pool s a (aligned_size a) m
unfolding bf_sys_dma_pool_create
create-reserve_pool s a m acc =
    rw
      (
        ne→not-== a.hndl 0 acc.handle,
        eq→== (bit_and a.align (u32 (a.align + 2 ^ 32 - 1))) 0 (accepted_power a acc),
        le→not-ltb huge_page_size a.size acc.size_small,
        le→leb a.align pool_hdr_size (omega (arith, accepted_align a acc)),
      )
      refl

pub accepted-small : (a : Args) → IsAccepted a → aligned_size a ≤ huge_page_size
accepted-small a acc = elim acc.align_ok [
  | inl z ↦
      rw
        (ap (conv_to_next_aligned (u32 a.size)) z
          ∙ conv_to_next_aligned-zero (u32 a.size) (omega arith))
        (omega arith)
  | inr (k, le, e) ↦ rw (ap (conv_to_next_aligned (u32 a.size)) e) (
      IsNextMultiple.least
        (conv_to_next_aligned_pow (u32 a.size) k (omega (arith, le))
          (omega (arith, pow-le k 12 le, acc.size_small)))
        huge_page_size (pow-mod k 21 (omega (arith, le))) (omega (arith, acc.size_small)))
]

-- Arguments that fail a check, with how the call ends.
pub data IsRefused (a : Args) (m : Machine) : Outcome (Option Pool × Machine) → Type 0 where
  null_handle : a.hndl ≡ 0 → IsRefused a m aborted
  uneven_align :
      a.hndl ≢ 0
      → 0 < a.align
      → a.align < 2 ^ 32
      → ((k : ℕ) → a.align ≢ 2 ^ k)
      → IsRefused a m (done (none, m))
  large_size : a.hndl ≢ 0 → huge_page_size < a.size → IsRefused a m (done (none, m))
  large_align :
      a.hndl ≢ 0
      → a.size ≤ huge_page_size
      → (k : ℕ) → a.align ≡ 2 ^ k
      → 12 < k
      → k < 32
      → IsRefused a m aborted

not_pow :
    (a : Args)
    → 0 < a.align
    → a.align < 2 ^ 32
    → ((k : ℕ) → a.align ≢ 2 ^ k)
    → bit_and a.align (u32 (a.align + 2 ^ 32 - 1)) ≢ 0
not_pow a pos lt odd e =
    let (k, p) =
      bit_and_pred a.align pos (ap (bit_and a.align) {x = a.align - 1} (omega arith) ∙ e) in
    odd k p

-- A NULL handle stops the process, and so does an alignment above 4 KB; an alignment that is no
-- power of two or a size above a huge page gives -1 with nothing changed.
create-refused :
    (s : System) (a : Args) (m : Machine) (o : Outcome (Option Pool × Machine))
    → IsRefused a m o
    → bf_sys_dma_pool_create s a m ≡ o
unfolding bf_sys_dma_pool_create
create-refused s a m _ (null_handle z) = rw z refl
create-refused s a m _ (uneven_align h pos lt odd) =
    rw (ne→not-== a.hndl 0 h, ne→not-== _ 0 (not_pow a pos lt odd)) refl
create-refused s a m _ (large_size h big) =
    rw (ne→not-== a.hndl 0 h, lt→ltb huge_page_size a.size big)
      (by_align (bit_and a.align (u32 (a.align + 2 ^ 32 - 1)) == 0))
  where
    by_align :
        (b : Bool)
        → (if not b
              then pure none
              else if true
              then pure none
              else check (leb a.align pool_hdr_size) >> reserve_pool s a (aligned_size a))
            m
          ≡ done (none, m)
    by_align true = refl
    by_align false = refl
create-refused s a m _ (large_align h small k e above fit) =
    rw
      (
        ne→not-== a.hndl 0 h,
        eq→== (bit_and a.align (u32 (a.align + 2 ^ 32 - 1))) 0 (is_power a k fit e),
        le→not-ltb huge_page_size a.size small,
        lt→not-leb a.align pool_hdr_size (omega (arith, e, pow-le 13 k (omega arith))),
      )
      refl

module _ {s : System} (lawful : IsLawful s) (a : Args) (self queue_block b info_block : ℕ)
    (m : Machine) where
  abbrev pub held : Machine
  held = with_block (with_block m self) queue_block

  abbrev pub offset : ℕ
  offset = header_for (aligned_size a) a.cnt

  abbrev pub length_of_map : ℕ
  length_of_map = align_to_bf_page_size (add64 (mul64 (aligned_size a) (sign_extend a.cnt)) offset)

  abbrev pub mapped_at : Machine
  mapped_at = with_region held b length_of_map

  module _ (acc : IsAccepted a) (few : a.cnt < 2 ^ 31)
      (first : s.calloc m 1 s.pool_bytes ≡ some self)
      (second : s.calloc (with_block m self) (sign_extend a.cnt) 8 ≡ some queue_block)
      (mapped : s.mmap held true length_of_map ≡ some b)
      (third : s.calloc mapped_at (sign_extend (length_of_map / huge_page_size)) 16
        ≡ some info_block)
      (identity : s.map_fn ≡ none)
      (frame : bf_mem_virt2phy s.pagemap (b + offset) ≢ invalid_phy_addr) where
    abbrev pool : Pool
    pool =
        filled a (aligned_size a) self queue_block (b + offset) offset info_block
          (identity_pages s (length_of_map / huge_page_size) b) (length_of_map / huge_page_size)
          (bf_mem_virt2phy s.pagemap (b + offset))

    create-pool : bf_sys_dma_pool_create s a m ≡ done (some pool, with_block mapped_at info_block)
    create-pool =
        create-reserve_pool s a m acc
        ∙ reserve_pool-some lawful a (aligned_size a) self queue_block b m
            (record { small = accepted-small a acc; count = few }) first second mapped info_block
            third identity frame

    -- On a lawful system, with arguments that pass the checks, a count that is not negative, a
    -- system that gives the three blocks and, at the first call of `mmap`, the mapping, no function
    -- for the bus and a frame behind the first buffer, the call returns a pool with all that
    -- `Created` states: the device, the number, the places and the order of its buffers, the header,
    -- the table of its huge pages, and what it holds of the heap, the mappings and the bus. The size
    -- of the buffers is the requested one rounded up to the alignment, or 0 if that is 0, and the
    -- pool has the physical address of its first buffer.
    pub bf_sys_dma_pool_create-some :
        (p : Pool) × (m' : Machine) × (bf_sys_dma_pool_create s a m ≡ done (some p, m'))
        × Created s.map_fn a (aligned_size a) m p m'
        × AlignedTo a (aligned_size a)
        × (p.base_phy_addr ≡ bf_mem_virt2phy s.pagemap p.buf_start)
    bf_sys_dma_pool_create-some =
        let (c, al) = subst (Ends (PoolResult s.map_fn a m)) create-pool (
          bf_sys_dma_pool_create_lem lawful a m (omega (arith, few))
            (omega (arith, accepted_align a acc))) in
        (pool, with_block mapped_at info_block, create-pool, c, al, refl)

  -- With arguments that pass the checks, if there is no memory for the table of huge pages, the
  -- error path frees the mapping as if it were a block of the heap, which is undefined.
  pub bf_sys_dma_pool_create-faulted :
      IsAccepted a
      → a.cnt < 2 ^ 31
      → s.calloc m 1 s.pool_bytes ≡ some self
      → s.calloc (with_block m self) (sign_extend a.cnt) 8 ≡ some queue_block
      → s.mmap held true length_of_map ≡ some b
      → s.calloc mapped_at (sign_extend (length_of_map / huge_page_size)) 16 ≡ none
      → bf_sys_dma_pool_create s a m ≡ faulted
  bf_sys_dma_pool_create-faulted acc few first second mapped third =
      create-reserve_pool s a m acc
      ∙ no_table-faulted lawful a (aligned_size a) self queue_block b m
          (record { small = accepted-small a acc; count = few }) first second mapped third
