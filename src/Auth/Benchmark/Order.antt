-- ===== src/Auth/Benchmark/Order.antt =====
-- The statistics of auth/cmd/benchmark-puzzle/main.go in the order of the durations.
use proxy_common.Common.{
  get_elem?, ◌∙◌, ap, negsuc, subst, some_inj, ◌+ℤ◌, ℕ, zero, suc, ◌+◌, ◌-◌, ◌*◌, ◌/◌, ◌%◌, ◌^◌,
  ◌≤◌, ◌<◌, ◌≡◌, ◌≢◌, refl, inl, inr, true, false, some, List, [], ◌∷◌, arith, ℤ, pos, ◌≤ℤ◌, ◌<ℤ◌,
  leb_ℤ, quot, ◌==◌, leb, length, All, Bool-cases,
}
use proxy_common.Common.Int64.{add64, wrap64_fits}
use proxy_common.Common.Double.{quotient}
use proxy_common.Common.Double.Near.{IsRounded, quotient-IsRounded}
use proxy_common.Auth.Benchmark.{
  percentile_index, element_at, insert_sorted, sort, middle, calculate_median, calculate_percentile,
}

-- no duration comes behind a longer one
abbrev Sorted : List ℤ → Type 0
Sorted [] = Unit
Sorted (d ∷ ds) = All (◌≤ℤ◌ d) ds × Sorted ds

length-insert_sorted : (d : ℤ) (ds : List ℤ) → length (insert_sorted d ds) ≡ suc (length ds)
unfolding insert_sorted
length-insert_sorted d [] = refl
length-insert_sorted d (e ∷ ds) = ground (arith, length-insert_sorted d ds)

length-sort : (ds : List ℤ) → length (sort ds) ≡ length ds
unfolding sort
length-sort [] = refl
length-sort (d ∷ ds) = omega (arith, length-insert_sorted d (sort ds), length-sort ds)

All-insert_sorted :
    (P : ℤ → Type 0) (d : ℤ) (ds : List ℤ) → P d → All P ds → All P (insert_sorted d ds)
unfolding insert_sorted
All-insert_sorted P d [] h hs = (h, tt)
All-insert_sorted P d (e ∷ ds) h (he, hs) = elim (Bool-cases (leb_ℤ d e)) [
  | inl first ↦ rw (insert_sorted, first) (h, (he, hs))
  | inr later ↦ rw (insert_sorted, later) (he, All-insert_sorted P d ds h hs)
]

All-sort : (P : ℤ → Type 0) (ds : List ℤ) → All P ds → All P (sort ds)
unfolding sort
All-sort P [] hs = tt
All-sort P (d ∷ ds) (h, hs) = All-insert_sorted P d (sort ds) h (All-sort P ds hs)

All-le : (d e : ℤ) (ds : List ℤ) → d ≤ℤ e → All (◌≤ℤ◌ e) ds → All (◌≤ℤ◌ d) ds
All-le d e [] h hs = tt
All-le d e (f ∷ ds) h (hf, hs) = (omega arith, All-le d e ds h hs)

insert_sorted-Sorted : (d : ℤ) (ds : List ℤ) → Sorted ds → Sorted (insert_sorted d ds)
unfolding insert_sorted
insert_sorted-Sorted d [] s = (tt, tt)
insert_sorted-Sorted d (e ∷ ds) (he, s) = elim (Bool-cases (leb_ℤ d e)) [
  | inl first ↦
      let le : d ≤ℤ e = ground arith in
      rw (insert_sorted, first) ((le, All-le d e ds le he), (he, s))
  | inr later ↦
      rw (insert_sorted, later)
        (All-insert_sorted (◌≤ℤ◌ e) d ds (ground arith) he, insert_sorted-Sorted d ds s)
]

sort-Sorted : (ds : List ℤ) → Sorted (sort ds)
unfolding sort
sort-Sorted [] = tt
sort-Sorted (d ∷ ds) = insert_sorted-Sorted d (sort ds) (sort-Sorted ds)

get_elem?-some :
    (P : ℤ → Type 0) (ds : List ℤ) (i : ℕ)
    → i < length ds
    → All P ds
    → (d : ℤ) × (get_elem? i ds ≡ some d) × P d
unfolding get_elem?
get_elem?-some P [] i h hs = absurd (omega arith)
get_elem?-some P (d ∷ ds) zero h (p, hs) = (d, refl, p)
get_elem?-some P (d ∷ ds) (suc i) h (p, hs) = get_elem?-some P ds i (omega arith) hs

get_elem?-All :
    (P : ℤ → Type 0) (ds : List ℤ) (i : ℕ) (a : ℤ) → get_elem? i ds ≡ some a → All P ds → P a
unfolding get_elem?
get_elem?-All P [] i a e hs = absurd (ground arith)
get_elem?-All P (d ∷ ds) zero a e (p, hs) = subst P (some_inj e) p
get_elem?-All P (d ∷ ds) (suc i) a e (p, hs) = get_elem?-All P ds i a e hs

get_elem?-monotone :
    (ds : List ℤ) (i j : ℕ) (a b : ℤ)
    → Sorted ds
    → i ≤ j
    → get_elem? i ds ≡ some a
    → get_elem? j ds ≡ some b
    → a ≤ℤ b
unfolding get_elem?
get_elem?-monotone [] i j a b s h ea eb = absurd (ground arith)
get_elem?-monotone (d ∷ ds) zero zero a b s h ea eb = ground arith
get_elem?-monotone (d ∷ ds) zero (suc j) a b (hd, s) h ea eb =
    let e : d ≡ a = some_inj ea in rw (← e) (get_elem?-All (◌≤ℤ◌ d) ds j b eb hd)
get_elem?-monotone (d ∷ ds) (suc i) zero a b s h ea eb = absurd (omega arith)
get_elem?-monotone (d ∷ ds) (suc i) (suc j) a b (hd, s) h ea eb =
    get_elem?-monotone ds i j a b s (omega arith) ea eb

-- a duration that is not negative, below 2^62 nanoseconds
abbrev pub Bounded : ℤ → Type 0
Bounded d = (pos 0 ≤ℤ d) × (d <ℤ pos (2 ^ 62))

add64_pos : (a b : ℕ) → a + b < 2 ^ 63 → add64 (pos a) (pos b) ≡ pos (a + b)
unfolding add64
add64_pos a b h =
    let e : pos a +ℤ pos b ≡ pos (a + b) = unfold ◌+ℤ◌ in ground arith in
    rw e (wrap64_fits (pos (a + b)) (omega arith))

middle-le :
    (a b : ℤ)
    → Bounded a
    → Bounded b
    → a ≤ℤ b
    → (m : ℤ) × (middle (some a) (some b) ≡ some m) × (m ≤ℤ b)
unfolding middle quot
middle-le (pos a) (pos b) ha hb h =
    (pos ((a + b) / 2), ap (λ x. some (quot x 2)) (add64_pos a b (omega arith)), omega arith)
middle-le (negsuc a) b ha hb h = absurd (omega arith)
middle-le (pos a) (negsuc b) ha hb h = absurd (omega arith)

index_range :
    (n x y : ℕ)
    → IsRounded ((n - 1) * 90) 1 x
    → IsRounded x (100 * 2 ^ 96) y
    → 1 ≤ n
    → n ≢ 2
    → (n / 2 ≤ y / 2 ^ 96) × (y / 2 ^ 96 < n)
index_range n x y first second h two = (omega arith, omega arith)

percentile_index_lem :
    (n p : ℕ) → percentile_index n p ≡ quotient (quotient ((n - 1) * p) 1) (100 * 2 ^ 96) / 2 ^ 96
unfolding percentile_index
percentile_index_lem n p = refl

percentile_index-range :
    (n : ℕ) → 1 ≤ n → n ≢ 2 → (n / 2 ≤ percentile_index n 90) × (percentile_index n 90 < n)
percentile_index-range n = rw percentile_index_lem (
    index_range n (quotient ((n - 1) * 90) 1) (quotient (quotient ((n - 1) * 90) 1) (100 * 2 ^ 96))
      (quotient-IsRounded ((n - 1) * 90) 1 (omega arith))
      (quotient-IsRounded (quotient ((n - 1) * 90) 1) (100 * 2 ^ 96) (omega arith)))

module _ (ds : List ℤ) (some_runs : 1 ≤ length ds) where
  filled : (length ds == 0) ≡ false
  filled = ground arith

  element_at_lem : (index : ℕ) → index < length ds → element_at index ds ≡ get_elem? index (sort ds)
  unfolding element_at
  element_at_lem index h =
      let inside : leb (length ds) index ≡ false = ground arith in
      rw (element_at, length-sort ds, filled, inside) refl

  calculate_percentile_lem :
      calculate_percentile ds 90 ≡ element_at (percentile_index (length (sort ds)) 90) ds
  unfolding calculate_percentile
  calculate_percentile_lem = refl

  calculate_median_odd :
      (length ds % 2 == 0) ≡ false → calculate_median ds ≡ get_elem? (length ds / 2) (sort ds)
  unfolding calculate_median
  calculate_median_odd odd = rw (calculate_median, length-sort ds, filled, odd) refl

  calculate_median_even :
      (length ds % 2 == 0) ≡ true
      → calculate_median ds
        ≡ middle (get_elem? (length ds / 2 - 1) (sort ds)) (get_elem? (length ds / 2) (sort ds))
  unfolding calculate_median
  calculate_median_even even = rw (calculate_median, length-sort ds, filled, even) refl

  -- For durations that are not negative and below 2^62 nanoseconds, one at least and not two, the
  -- median and the 90th percentile are there, and the median is not above the percentile.
  pub calculate_median-percentile :
      length ds ≢ 2
      → All Bounded ds
      → (m : ℤ) × (q : ℤ) × (calculate_median ds ≡ some m)
        × (calculate_percentile ds 90 ≡ some q)
        × (m ≤ℤ q)
  calculate_median-percentile not_two bounded =
      let n = length ds in
      let size = length-sort ds in
      let place = percentile_index n 90 in
      let (behind, inside) = percentile_index-range n some_runs not_two in
      let sorted = sort-Sorted ds in
      let all = All-sort Bounded ds bounded in
      let (q, eq, bq) = get_elem?-some Bounded (sort ds) place (rw size inside) all in
      let (b, eb, bb) = get_elem?-some Bounded (sort ds) (n / 2) (omega arith) all in
      let found : calculate_percentile ds 90 ≡ some q =
        calculate_percentile_lem ∙ rw size (element_at_lem place inside ∙ eq) in
      elim (Bool-cases (n % 2 == 0)) [
        | inr odd ↦
            let above = get_elem?-monotone (sort ds) (n / 2) place b q sorted behind eb eq in
            (b, q, calculate_median_odd odd ∙ eb, found, above)
        | inl even ↦
            let above = get_elem?-monotone (sort ds) (n / 2) place b q sorted behind eb eq in
            let (a, ea, ba) = get_elem?-some Bounded (sort ds) (n / 2 - 1) (omega arith) all in
            let le =
              get_elem?-monotone (sort ds) (n / 2 - 1) (n / 2) a b sorted (omega arith) ea eb in
            let (m, em, lm) = middle-le a b ba bb le in
            (m, q, calculate_median_even even ∙ rw (ea, eb) em, found, omega arith)
      ]
