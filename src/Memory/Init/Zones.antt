-- ===== src/Memory/Init/Zones.antt =====
-- What the zones that init_memory of kernel/mm/mm.c adds do to the bitmap.
use s_os.Base.{
  ℕ, zero, suc, ◌+◌, ◌-◌, ◌*◌, ◌/◌, ◌≡◌, ◌≤◌, ◌<◌, refl, ◌∙◌, sym, ap, subst, Bool, true, false,
  leb, ltb, ◌&&◌, ◌||◌, not, if◌then◌else◌, arith, Bool-cases, inl, inr,
}
use s_os.Memory.{Memory, page_bit, set_zone}
use s_os.Memory.Bitmap.{used}
use s_os.Slab.Bits.{xor-used}
use s_os.Memory.Init.{
  E820, seg_start, seg_end, is_usable, page_2m_size, add_page, add_pages, add_zone, add_zones,
}

-- Does the page lie in a usable entry?
abbrev pub in_seg : E820 → ℕ → Bool
in_seg p q = is_usable p && leb (seg_start p / page_2m_size) q && ltb q (seg_end p / page_2m_size)

-- Does it lie in one of the `n` entries from `i` on?
unfoldable pub covered : ℕ → (ℕ → E820) → ℕ → ℕ → Bool
covered zero table i q = false
covered (suc n) table i q = in_seg (table i) q || covered n table (i + 1) q

-- A page lies in one of the entries at most.
abbrev pub IsApart : ℕ → (ℕ → E820) → ℕ → Type 0
IsApart n table q =
    (a b : ℕ) → a < n → b < n → in_seg (table a) q ≡ true → in_seg (table b) q ≡ true → a ≡ b

-- The pages below `pages` have addresses that are not above their own.
abbrev pub IsLow : Memory → ℕ → Type 0
IsLow m pages = (q : ℕ) → q < pages → page_bit m q ≤ q

add_pages-used :
    (n : ℕ) (m : Memory) (z start j q : ℕ)
    → used (add_pages n m z start j).bits_map q ≡ (
        if leb (start / page_2m_size + j) q && ltb q (start / page_2m_size + j + n)
        then not (used m.bits_map q)
        else used m.bits_map q)
unfolding add_pages add_page
add_pages-used zero m z start j q = ground arith
add_pages-used (suc n) m z start j q =
    let b : (start + page_2m_size * j) / page_2m_size ≡ start / page_2m_size + j = omega arith in
    add_pages-used n (add_page m z start j) z start (j + 1) q
    ∙ ground (arith, xor-used m.bits_map ((start + page_2m_size * j) / page_2m_size) q, b)

add_pages-page_bit :
    (n : ℕ) (m : Memory) (z start j q : ℕ)
    → page_bit (add_pages n m z start j) q ≡ (
        if leb (start / page_2m_size + j) q && ltb q (start / page_2m_size + j + n)
        then q
        else page_bit m q)
unfolding add_pages add_page
add_pages-page_bit zero m z start j q = ground arith
add_pages-page_bit (suc n) m z start j q =
    let b : (start + page_2m_size * j) / page_2m_size ≡ start / page_2m_size + j = omega arith in
    add_pages-page_bit n (add_page m z start j) z start (j + 1) q ∙ ground (arith, b)

add_pages-IsLow :
    (n : ℕ) (m : Memory) (z start j pages : ℕ)
    → IsLow m pages
    → IsLow (add_pages n m z start j) pages
unfolding add_pages add_page
add_pages-IsLow zero m z start j pages low = low
add_pages-IsLow (suc n) m z start j pages low =
    add_pages-IsLow n (add_page m z start j) z start (j + 1) pages (λ q h. ground (arith, low q))

span :
    (p : E820)
    → seg_start p < seg_end p
    → seg_start p / page_2m_size + 0 + (seg_end p - seg_start p) / page_2m_size
      ≡ seg_end p / page_2m_size
span p h = omega arith

add_zone-used :
    (m : Memory) (p : E820) (q : ℕ)
    → is_usable p ≡ true
    → used (add_zone m p).bits_map q
      ≡ (if in_seg p q then not (used m.bits_map q) else used m.bits_map q)
unfolding add_zone
add_zone-used m p q usable =
    let last : seg_start p / page_2m_size + 0 + (seg_end p - seg_start p) / page_2m_size
        ≡ seg_end p / page_2m_size =
      span p (ground (arith, usable)) in
    let zoned =
      record (set_zone m m.zones_size (record {
        zone_start_address = seg_start p;
        zone_end_address = seg_end p;
        page_using_count = 0;
        page_free_count = (seg_end p - seg_start p) / page_2m_size;
        total_pages_link = 0;
      })) { zones_size = m.zones_size + 1 } in
    add_pages-used ((seg_end p - seg_start p) / page_2m_size) zoned m.zones_size (seg_start p) 0 q
    ∙ ground (arith, last, usable)

add_zone-page_bit :
    (m : Memory) (p : E820) (q : ℕ)
    → is_usable p ≡ true
    → page_bit (add_zone m p) q ≡ (if in_seg p q then q else page_bit m q)
unfolding add_zone
add_zone-page_bit m p q usable =
    let last = span p (ground (arith, usable)) in
    let zoned =
      record (set_zone m m.zones_size (record {
        zone_start_address = seg_start p;
        zone_end_address = seg_end p;
        page_using_count = 0;
        page_free_count = (seg_end p - seg_start p) / page_2m_size;
        total_pages_link = 0;
      })) { zones_size = m.zones_size + 1 } in
    add_pages-page_bit ((seg_end p - seg_start p) / page_2m_size) zoned m.zones_size (seg_start p) 0
      q
    ∙ ground (arith, last, usable)

covered-none :
    (n : ℕ) (table : ℕ → E820) (i q : ℕ)
    → ((b : ℕ) → i ≤ b → b < i + n → in_seg (table b) q ≡ false)
    → covered n table i q ≡ false
unfolding covered
covered-none zero table i q h = refl
covered-none (suc n) table i q h = ground (
  arith,
  h i (omega arith) (omega arith),
  covered-none n table (i + 1) q (λ b l k. h b (omega arith) (omega arith)),
)

add_zone-IsLow : (m : Memory) (p : E820) (pages : ℕ) → IsLow m pages → IsLow (add_zone m p) pages
unfolding add_zone
add_zone-IsLow m p pages low =
    add_pages-IsLow ((seg_end p - seg_start p) / page_2m_size) _ m.zones_size (seg_start p) 0 pages
      low

module _ (table : ℕ → E820) where
  add_zones-add :
      (n : ℕ) (m : Memory) (i : ℕ)
      → is_usable (table i) ≡ true
      → add_zones (suc n) m table i ≡ add_zones n (add_zone m (table i)) table (i + 1)
  unfolding add_zones
  add_zones-add n m i u = rw (u, add_zones) refl

  add_zones-skip :
      (n : ℕ) (m : Memory) (i : ℕ)
      → is_usable (table i) ≡ false
      → add_zones (suc n) m table i ≡ add_zones n m table (i + 1)
  unfolding add_zones
  add_zones-skip n m i u = rw (u, add_zones) refl

  pub add_zones-IsLow :
      (n : ℕ) (m : Memory) (i pages : ℕ) → IsLow m pages → IsLow (add_zones n m table i) pages
  unfolding add_zones
  add_zones-IsLow zero m i pages low = low
  add_zones-IsLow (suc n) m i pages low = elim (Bool-cases (is_usable (table i))) [
    | inl u ↦
        subst (λ (r : Memory). IsLow r pages) (sym (add_zones-add n m i u))
          (add_zones-IsLow n (add_zone m (table i)) (i + 1) pages
            (add_zone-IsLow m (table i) pages low))
    | inr u ↦
        subst (λ (r : Memory). IsLow r pages) (sym (add_zones-skip n m i u))
          (add_zones-IsLow n m (i + 1) pages low)
  ]

  pub add_zones-page_bit :
      (n : ℕ) (m : Memory) (i q : ℕ)
      → page_bit (add_zones n m table i) q ≡ (if covered n table i q then q else page_bit m q)
  unfolding add_zones covered
  add_zones-page_bit zero m i q = refl
  add_zones-page_bit (suc n) m i q = elim (Bool-cases (is_usable (table i))) [
    | inl u ↦
        ap (λ (r : Memory). page_bit r q) (add_zones-add n m i u)
        ∙ (add_zones-page_bit n (add_zone m (table i)) (i + 1) q
            ∙ ground (arith, add_zone-page_bit m (table i) q u))
    | inr u ↦
        ap (λ (r : Memory). page_bit r q) (add_zones-skip n m i u)
        ∙ (add_zones-page_bit n m (i + 1) q ∙ ground (arith, u))
  ]

  pub add_zones-used :
      (n : ℕ) (m : Memory) (i q : ℕ)
      → ((a b : ℕ)
          → i ≤ a
          → a < i + n
          → i ≤ b
          → b < i + n
          → in_seg (table a) q ≡ true
          → in_seg (table b) q ≡ true
          → a ≡ b)
      → used (add_zones n m table i).bits_map q
        ≡ (if covered n table i q then not (used m.bits_map q) else used m.bits_map q)
  unfolding add_zones covered
  add_zones-used zero m i q apart = refl
  add_zones-used (suc n) m i q apart =
      let rest = λ (m1 : Memory).
        add_zones-used n m1 (i + 1) q
          (λ a b l h k g. apart a b (omega arith) (omega arith) (omega arith) (omega arith)) in
      elim (Bool-cases (in_seg (table i) q)) [
        | inl here ↦
            let usable : is_usable (table i) ≡ true = ground (arith, here) in
            let others : covered n table (i + 1) q ≡ false =
              covered-none n table (i + 1) q (λ b l h. not_again b l h here) in
            ap (λ (r : Memory). used r.bits_map q) (add_zones-add n m i usable)
            ∙ (rest (add_zone m (table i))
                ∙ ground (arith, others, here, add_zone-used m (table i) q usable))
        | inr away ↦ elim (Bool-cases (is_usable (table i))) [
          | inl usable ↦
              ap (λ (r : Memory). used r.bits_map q) (add_zones-add n m i usable)
              ∙ (rest (add_zone m (table i))
                  ∙ ground (arith, away, add_zone-used m (table i) q usable))
          | inr unusable ↦
              ap (λ (r : Memory). used r.bits_map q) (add_zones-skip n m i unusable)
              ∙ (rest m ∙ ground (arith, away))
        ]
      ]
    where
      not_again :
          (b : ℕ)
          → i + 1 ≤ b
          → b < i + 1 + n
          → in_seg (table i) q ≡ true
          → in_seg (table b) q ≡ false
      not_again b l h here = elim (Bool-cases (in_seg (table b) q)) [
        | inl there ↦ absurd (
            omega
              (arith, apart i b (omega arith) (omega arith) (omega arith) (omega arith) here there))
        | inr out ↦ out
      ]
