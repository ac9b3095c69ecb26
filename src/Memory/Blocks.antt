-- ===== src/Memory/Blocks.antt =====
-- What the two allocators of kernel/memory.c hand out, over any sequence of calls.
use hueos.Base.{
  length, ℕ, ◌+◌, ◌-◌, ◌*◌, ◌/◌, ◌%◌, ◌^◌, ◌≤◌, ◌<◌, ◌≡◌, ◌≢◌, refl, List, [], ◌∷◌, arith,
  bit_and-field, u32, leb, ◌==◌, if◌then◌else◌,
}
use hueos.Io.{Trace}
use hueos.Memory.{Memory, page_size, allocate_frame, kmalloc, align4}

-- The next multiple of four, where the addition does not wrap.
align4-eq : (size : ℕ) → size + 3 < 2 ^ 32 → align4 size ≡ (size + 3) / 4 * 4
align4-eq size h = omega (arith, bit_and-field 2 30 (u32 (size + 3)))

-- A client's calls.
pub data Request : Type 0 where
  frame : Request
  heap : ℕ → Request

unfoldable pub serve : Request → Memory × Trace → ℕ × Memory × Trace
serve frame s = allocate_frame s
serve (heap size) s = kmalloc size s

-- The bytes that a request takes up.
abbrev pub demand : Request → ℕ
demand frame = page_size
demand (heap size) = (size + 3) / 4 * 4

abbrev pub total : List Request → ℕ
total [] = 0
total (r ∷ rs) = demand r + total rs

pub record Block : Type 0 where
  pub start : ℕ
  pub size : ℕ

-- The blocks of the calls that did not return 0, in order.
unfoldable pub blocks : List Request → Memory × Trace → List Block
blocks [] s = []
blocks (r ∷ rs) s =
    let (p, m, t) = serve r s in
    let rest = blocks rs (m, t) in
    if p == 0 then rest else record { start = p; size = demand r } ∷ rest

-- The blocks lie one after the other in `lo … hi`, hence apart.
abbrev pub InOrder : ℕ → ℕ → List Block → Type 0
InOrder lo hi [] = Unit {0}
InOrder lo hi (b ∷ bs) = (lo ≤ b.start) × (b.start + b.size < hi) × InOrder (b.start + b.size) hi bs

InOrder-from :
    {lo lo' : ℕ} (hi : ℕ) (bs : List Block) → lo' ≤ lo → InOrder lo hi bs → InOrder lo' hi bs
InOrder-from hi [] h p = tt
InOrder-from hi (b ∷ bs) h p = (omega arith, p.1, p.2)

-- One call with no wrap: the block starts at the old address if it ends below the end of memory.
serve_lem :
    (r : Request) (m : Memory) (t : Trace)
    → m.placement_address + demand r + 3 < 2 ^ 32
    → ((serve r (m, t)).0 ≡ (
        if demand r == 0
        then 0
        else if leb m.memory_end (m.placement_address + demand r)
        then 0
        else m.placement_address))
      × ((serve r (m, t)).1 ≡ record m { placement_address = m.placement_address + demand r })
unfolding serve allocate_frame kmalloc
serve_lem frame m t h = ground arith
serve_lem (heap size) m t h = ground (arith, align4-eq size)

-- No two blocks that the allocators hand out overlap, in whatever order frames and heap blocks
-- are asked for: each block starts at or after the end of the one before it, the first at or after
-- the placement address, and each ends below the end of memory; provided that the addresses do
-- not pass 2^32.
pub blocks-InOrder :
    (rs : List Request) (m : Memory) (t : Trace)
    → m.placement_address + total rs + 3 < 2 ^ 32
    → InOrder m.placement_address m.memory_end (blocks rs (m, t))
unfolding blocks
blocks-InOrder [] m t h = tt
blocks-InOrder (r ∷ rs) m t h = ground (
  arith,
  serve_lem r m t,
  blocks-InOrder rs (serve r (m, t)).1 (serve r (m, t)).2,
  InOrder-from {lo = m.placement_address + demand r} {lo' = m.placement_address} m.memory_end
      (blocks rs ((serve r (m, t)).1, (serve r (m, t)).2)),
)

abbrev pub AllAsk : List Request → Type 0
AllAsk [] = Unit {0}
AllAsk (r ∷ rs) = (0 < demand r) × AllAsk rs

-- Every call is served as long as the requests together end below the end of memory: then there
-- are as many blocks as requests, if no request is for 0 bytes and the placement address is not 0.
blocks_served :
    (rs : List Request) (m : Memory) (t : Trace)
    → 0 < m.placement_address
    → m.memory_end + 3 < 2 ^ 32
    → m.placement_address + total rs < m.memory_end
    → AllAsk rs
    → length (blocks rs (m, t)) ≡ length rs
unfolding blocks
blocks_served [] m t pos top fits ask = refl
blocks_served (r ∷ rs) m t pos top fits ask =
    ground (arith, serve_lem r m t, blocks_served rs (serve r (m, t)).1 (serve r (m, t)).2)

-- Once the placement address has reached the end of memory, no later request is served, whatever
-- its size, until the address passes 2^32.
blocks_exhausted :
    (rs : List Request) (m : Memory) (t : Trace)
    → m.memory_end ≤ m.placement_address
    → m.placement_address + total rs + 3 < 2 ^ 32
    → blocks rs (m, t) ≡ []
unfolding blocks
blocks_exhausted [] m t full top = refl
blocks_exhausted (r ∷ rs) m t full top =
    ground (arith, serve_lem r m t, blocks_exhausted rs (serve r (m, t)).1 (serve r (m, t)).2)

-- A size within three bytes of 2^32 wraps to 0 when it is rounded: `kmalloc` then succeeds, returns
-- the placement address and reserves nothing, so that the next call gets the same address.
kmalloc_wraps :
    (size : ℕ) (m : Memory) (t : Trace)
    → 2 ^ 32 - 3 ≤ size
    → size < 2 ^ 32
    → m.placement_address < m.memory_end
    → m.memory_end < 2 ^ 32
    → kmalloc size (m, t) ≡ (m.placement_address, m, t)
unfolding kmalloc
kmalloc_wraps size m t lo hi room top = ground (arith, bit_and-field 2 30 (u32 (size + 3)))

-- From a page-aligned placement address and with room for both, `kmalloc` of a size that does not
-- fill pages returns the address, and the next frame that is handed out begins right behind the
-- block, inside a page.
pub allocate_frame-kmalloc :
    (size : ℕ) (m : Memory) (t : Trace)
    → m.placement_address % page_size ≡ 0
    → (size + 3) / 4 * 4 % page_size ≢ 0
    → 0 < m.placement_address
    → m.placement_address + (size + 3) / 4 * 4 + page_size < m.memory_end
    → m.memory_end + 3 < 2 ^ 32
    → let (p, m', t') = kmalloc size (m, t) in
      let (f, m'', t'') = allocate_frame (m', t') in
      (p ≡ m.placement_address) × (f ≡ p + (size + 3) / 4 * 4) × (f % page_size ≢ 0)
unfolding allocate_frame kmalloc
allocate_frame-kmalloc size m t aligned ragged pos room top = ground (arith, align4-eq size)
