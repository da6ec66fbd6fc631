-- ===== src/Matcher/Sort.antt =====
-- `sort_desc` orders the entries and reads like the map it was given.
use intents.Prelude.{
  ℕ, ◌+◌, ◌≡◌, refl, ◌≤◌, false, List, [], ◌∷◌, some, none, ◌==◌, if◌then◌else◌, nat_default,
  string_eq, arith, Bool-cases, inl, inr, leb,
}
use intents.MapUtils.{get}
use intents.MapUtils.Laws.{IsDistinct, IsClean}
use intents.MapUtils.Sum.{sum_of}
use intents.Amounts.Laws.{IsValid}
use intents.TokenId.{AccountId}
use intents.Matcher.{AccountAmounts, insert_sorted, sort_desc}

abbrev pub IsSorted : List (AccountId × ℕ) → Type 0
IsSorted [] = Unit
IsSorted (x ∷ []) = Unit
IsSorted (x ∷ y ∷ l) = (y.1 ≤ x.1) × IsSorted (y ∷ l)

abbrev pub total : List (AccountId × ℕ) → ℕ
total l = sum_of (λ a. a) l

insert_sorted-IsSorted :
    (x : AccountId × ℕ) (l : List (AccountId × ℕ)) → IsSorted l → IsSorted (insert_sorted x l)
unfolding insert_sorted
insert_sorted-IsSorted x [] h = tt
insert_sorted-IsSorted x (y ∷ []) h = ground arith
insert_sorted-IsSorted x (y ∷ z ∷ l) h = ground (arith, insert_sorted-IsSorted x (z ∷ l) h.1)

get-insert_sorted :
    (k : AccountId) (a : ℕ) (l : AccountAmounts) (j : AccountId)
    → get l k ≡ none
    → get (insert_sorted (k, a) l) j ≡ (if k == j then some a else get l j)
unfolding get insert_sorted
get-insert_sorted k a [] j h = refl
get-insert_sorted k a ((i, b) ∷ l) j h = elim (Bool-cases (leb b a)) [
  | inl first ↦ rw (first, insert_sorted)
  | inr later ↦
      rw (later, insert_sorted)
        (ground (
          arith,
          get-insert_sorted k a l j,
          string_eq.beq_iff i k,
          string_eq.beq_iff i j,
          string_eq.beq_iff k j,
        ))
]

get-cons_eq :
    (k : AccountId) (a : ℕ) (l m l' : AccountAmounts) (j : AccountId)
    → get l' j ≡ (if k == j then some a else get l j)
    → get l j ≡ get m j
    → get l' j ≡ get ((k, a) ∷ m) j
unfolding get
get-cons_eq k a l m l' j h e = ground arith

insert_sorted-IsDistinct :
    (k : AccountId) (a : ℕ) (l : AccountAmounts)
    → get l k ≡ none
    → IsDistinct l
    → IsDistinct (insert_sorted (k, a) l)
unfolding get insert_sorted
insert_sorted-IsDistinct k a [] h v = (refl, tt)
insert_sorted-IsDistinct k a ((i, b) ∷ l) h v = ground (
  arith,
  insert_sorted-IsDistinct k a l,
  get-insert_sorted k a l i,
  string_eq.beq_iff i k,
  string_eq.beq_iff k i,
)

insert_sorted-IsClean :
    (x : AccountId × ℕ) (l : AccountAmounts)
    → nat_default.is_default x.1 ≡ false
    → IsClean l
    → IsClean (insert_sorted x l)
unfolding insert_sorted
insert_sorted-IsClean x [] n h = (n, tt)
insert_sorted-IsClean x (y ∷ l) n h = ground (arith, insert_sorted-IsClean x l n h.1)

total-insert_sorted :
    (x : AccountId × ℕ) (l : AccountAmounts) → total (insert_sorted x l) ≡ x.1 + total l
unfolding insert_sorted
total-insert_sorted x [] = omega arith
total-insert_sorted x (y ∷ l) = ground (arith, total-insert_sorted x l)

-- What the sorted list keeps of the map.
pub record Sorts (m : AccountAmounts) (l : List (AccountId × ℕ)) : Type 0 where
  pub sorted : IsSorted l
  pub same_entries : (j : AccountId) → get l j ≡ get m j
  pub same_total : total l ≡ total m
  pub valid : IsValid l

-- Of a valid map: the sorted list has the entries of the map, the same total, no key twice and no
-- zero, and its amounts descend.
pub sort_desc-Sorts : (m : AccountAmounts) → IsValid m → Sorts m (sort_desc m)
unfolding sort_desc
sort_desc-Sorts [] v = record {
  sorted = tt;
  same_entries = λ j. refl;
  same_total = refl;
  valid = v;
}
sort_desc-Sorts ((k, a) ∷ m) v =
    let ih = sort_desc-Sorts m (v.0.1, v.1.1) in
    let fresh : get (sort_desc m) k ≡ none = rw (ih.same_entries k) v.0.0 in
    record {
      sorted = insert_sorted-IsSorted (k, a) (sort_desc m) ih.sorted;
      same_entries = λ j.
          get-cons_eq k a (sort_desc m) m (insert_sorted (k, a) (sort_desc m)) j
            (get-insert_sorted k a (sort_desc m) j fresh) (ih.same_entries j);
      same_total = omega (arith, total-insert_sorted (k, a) (sort_desc m), ih.same_total);
      valid = (
        insert_sorted-IsDistinct k a (sort_desc m) fresh ih.valid.0,
        insert_sorted-IsClean (k, a) (sort_desc m) v.1.0 ih.valid.1,
      );
    }
