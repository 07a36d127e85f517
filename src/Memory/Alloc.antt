-- ===== src/Memory/Alloc.antt =====
-- What alloc_pages and free_pages of kernel/mm/mm.c do to the bitmap.
use s_os.Base.{
  ℕ, zero, suc, ◌+◌, ◌-◌, ◌/◌, ◌%◌, ◌^◌, ◌≡◌, ◌≤◌, ◌<◌, refl, ◌∙◌, sym, ap, subst, Bool, true,
  false, Option, none, some, ◌==◌, leb, ltb, ◌||◌, ◌⊎◌, ◌&&◌, arith, Bool-cases, Option-cases, inl,
  inr,
}
use s_os.Memory.{
  page_bit, Memory, Result, found, null, no_return, take_pages, give_pages, try_zones, alloc_pages,
  free_pages, find_pages,
}
use s_os.Memory.Bitmap.{used, AreWords, find_pages-free}
use s_os.Memory.Runs.{HasPlace, give_pages-used, in_run, take_pages-place, take_pages-used}

module _ (m : Memory) (number attribute i n : ℕ) where
  try_zones-next :
      ltb (m.zones_struct i).page_free_count number ≡ true
      → try_zones (suc n) m number attribute i ≡ try_zones n m number attribute (i + 1)
  unfolding try_zones
  try_zones-next h = rw (h, try_zones) refl

  -- the search in one zone
  abbrev search : Option ℕ
  search =
      find_pages
        ((m.zones_struct i).zone_end_address / 2 ^ 21
          + 1
          - (m.zones_struct i).zone_start_address / 2 ^ 21)
        m.bits_map number ((m.zones_struct i).zone_end_address / 2 ^ 21)
        (64 - (m.zones_struct i).zone_start_address / 2 ^ 21 % 64)
        ((m.zones_struct i).zone_start_address / 2 ^ 21)

  try_zones-null :
      ltb (m.zones_struct i).page_free_count number ≡ false
      → search ≡ none
      → try_zones (suc n) m number attribute i ≡ null
  unfolding try_zones
  try_zones-null h e = rw (h, e, try_zones) refl

  try_zones-here :
      (page : ℕ)
      → ltb (m.zones_struct i).page_free_count number ≡ false
      → search ≡ some page
      → try_zones (suc n) m number attribute i ≡ found page (take_pages number m i attribute page)
  unfolding try_zones
  try_zones-here page h e = rw (h, e, try_zones) refl

-- The pages from `page` on were free in `m`, and are the only ones whose use differs in `t`.
pub record Taken (m t : Memory) (number page : ℕ) : Type 0 where
  pub place : (q : ℕ) → page_bit t q ≡ page_bit m q
  pub only : (q : ℕ) → used t.bits_map q ≡ (used m.bits_map q || in_run page number q)
  pub were_free : (q : ℕ) → (used m.bits_map q && in_run page number q) ≡ false

find_pages-run :
    (bits : ℕ → ℕ) (n number last tmp j page q : ℕ)
    → AreWords bits
    → number < 64
    → find_pages n bits number last tmp j ≡ some page
    → (used bits q && in_run page number q) ≡ false
unfolding in_run
find_pages-run bits n number last tmp j page q words small e =
    elim (Bool-cases (leb page q && ltb q (page + number))) [
      | inl h ↦
          let at : page + (q - page) ≡ q = ground arith in
          let free =
            find_pages-free n bits number last tmp j page words small e (q - page) (ground arith) in
          rw h (ground (arith, subst (λ k. used bits k ≡ false) at free))
      | inr h ↦ rw h (ground arith)
    ]

-- what a result holds, with a default
abbrev page_of : ℕ → Result → ℕ
page_of d (found page t) = page
page_of d null = d
page_of d no_return = d

abbrev memory_of : Memory → Result → Memory
memory_of d (found page t) = t
memory_of d null = d
memory_of d no_return = d

abbrev is_found : Result → Bool
is_found (found page t) = true
is_found null = false
is_found no_return = false

try_zones-end : (m : Memory) (number attribute i : ℕ) → try_zones 0 m number attribute i ≡ no_return
unfolding try_zones
try_zones-end m number attribute i = refl

try_zones-Taken :
    (n : ℕ) (m : Memory) (number attribute i page : ℕ) (t : Memory)
    → AreWords m.bits_map
    → HasPlace m page number
    → number < 64
    → try_zones n m number attribute i ≡ found page t
    → Taken m t number page
try_zones-Taken zero m number attribute i page t words o small e =
    let no = ap is_found (sym (try_zones-end m number attribute i) ∙ e) in absurd (ground arith)
try_zones-Taken (suc n) m number attribute i page t words o small e =
    elim (Bool-cases (ltb (m.zones_struct i).page_free_count number)) [
      | inl h ↦
          try_zones-Taken n m number attribute (i + 1) page t words o small
            (sym (try_zones-next m number attribute i n h) ∙ e)
      | inr h ↦ elim (Option-cases (search m number attribute i n)) [
        | inl missing ↦
            let no = ap is_found (sym (try_zones-null m number attribute i n h missing) ∙ e) in
            absurd (ground arith)
        | inr (p, here) ↦
            let same = sym (try_zones-here m number attribute i n p h here) ∙ e in
            let ep : p ≡ page = ap (λ r. page_of 0 r) same in
            let et : take_pages number m i attribute p ≡ t = ap (λ r. memory_of m r) same in
            subst (λ k. Taken m k number page) et
              (subst (λ k. Taken m (take_pages number m i attribute p) number k) ep
                (record {
                  place = λ q. take_pages-place number m i attribute p q;
                  only = λ q.
                      take_pages-used number m i attribute p q
                        (subst (λ k. HasPlace m k number) (sym ep) o);
                  were_free = λ q. find_pages-run m.bits_map _ number _ _ _ p q words small here;
                }))
      ]
    ]

-- alloc_pages rejects, or tries some zones.
alloc_pages-cases :
    (m : Memory) (zone_select number page_flags : ℕ)
    → (alloc_pages m zone_select number page_flags ≡ null)
      ⊎ ((1 ≤ number)
          × (number < 64)
          × ((n : ℕ) × (attribute : ℕ) × (i : ℕ) × (alloc_pages m zone_select number page_flags
                ≡ try_zones n m number attribute i)))
unfolding alloc_pages
alloc_pages-cases m sel number flags = elim (Bool-cases (leb 64 number || (number == 0))) [
  | inl bad ↦ inl (rw (bad, alloc_pages) refl)
  | inr good ↦ elim (Bool-cases (sel == 1)) [
    | inl a ↦
        inr
          (ground arith, ground arith, (m.zone_dma_index + 1, 1, 0, rw (good, a, alloc_pages) refl))
    | inr na ↦ elim (Bool-cases (sel == 2)) [
      | inl b ↦ inr (
        ground arith,
        ground arith,
        (
          m.zone_normal_index + 1 - m.zone_dma_index,
          1,
          m.zone_dma_index,
          rw (good, na, b, alloc_pages) refl,
        ),
      )
      | inr nb ↦ elim (Bool-cases (sel == 4)) [
        | inl c ↦ inr (
          ground arith,
          ground arith,
          (
            m.zones_size - m.zone_unmaped_index,
            0,
            m.zone_unmaped_index,
            rw (good, na, nb, c, alloc_pages) refl,
          ),
        )
        | inr nc ↦ inl (rw (good, na, nb, nc, alloc_pages) refl)
      ]
    ]
  ]
]

-- When alloc_pages returns a page, the number that is asked for is between 1 and 63, that many pages from
-- the returned one on were free, and they are the only pages whose use has changed: they are in use now.
-- The hypotheses: the bitmap has words of 64 bits, and the pages of the run are at their own addresses,
-- q * 2 MB for page q, as init_memory leaves the pages of zones.
pub alloc_pages-Taken :
    (m t : Memory) (zone_select number page_flags page : ℕ)
    → AreWords m.bits_map
    → HasPlace m page number
    → alloc_pages m zone_select number page_flags ≡ found page t
    → (1 ≤ number) × (number < 64) × Taken m t number page
alloc_pages-Taken m t sel number flags page words o e =
    elim (alloc_pages-cases m sel number flags) [
      | inl bad ↦ let no = ap is_found (sym bad ∙ e) in absurd (ground arith)
      | inr (low, high, (n, attribute, i, tried)) ↦
          (low, high, try_zones-Taken n m number attribute i page t words o high (sym tried ∙ e))
    ]

free_pages-give :
    (m : Memory) (page number : ℕ)
    → 1 ≤ number
    → number < 64
    → free_pages m (some page) number ≡ give_pages number m page
unfolding free_pages
free_pages-give m page number low high = ground arith

-- When alloc_pages returns a page, free_pages of as many pages from it on makes every page's use what it
-- was before. The hypotheses are those of alloc_pages-Taken.
pub free_pages-alloc_pages :
    (m t : Memory) (zone_select number page_flags page : ℕ)
    → AreWords m.bits_map
    → HasPlace m page number
    → alloc_pages m zone_select number page_flags ≡ found page t
    → (q : ℕ) → used (free_pages t (some page) number).bits_map q ≡ used m.bits_map q
free_pages-alloc_pages m t sel number flags page words o e q =
    let (low, high, taken) = alloc_pages-Taken m t sel number flags page words o e in
    rw (free_pages-give t page number low high) (
      ground (
        arith,
        give_pages-used number t page q (λ k l h. taken.place k ∙ o k l h),
        taken.only q,
        taken.were_free q,
      ))
