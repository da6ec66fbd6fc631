-- ===== src/Bitmap/Laws.antt =====
-- A bit map reads as a set of numbers, under each operation.
use intents.Prelude.{
  ℕ, zero, suc, ◌/◌, ◌≡◌, refl, sym, ◌∙◌, ap, ◌<◌, ◌≢◌, Bool, true, false, not, some, List, arith,
  nat_eq, nat_beq, nat_beq_iff, if◌then◌else◌, Bool-cases, inl, inr, get_or, set, replicate, length,
  length-set, get_or-set_self, get_or-set_ne, Option-cases,
}
use native.Mathlib.Decide.{ℕ_discrete}
use intents.MapUtils.{get, insert}
use intents.MapUtils.Laws.{get-insert, get-remove}
use intents.Bitmap.{
  BitMap256, test_bit, or_bit, and_not_bit, xor_bit, get_bit, entry_or_default, update_bit, set_bit,
  clear_bit, toggle_bit, cleanup_by_prefix, byte_of, bit_of,
}
use intents.Bitmap.Bits.{
  IsBitUpdate, test_bit-zero, or_bit-IsBitUpdate, and_not_bit-IsBitUpdate, xor_bit-IsBitUpdate,
}

-- A `[u8; 32]`.
pub record IsArray (l : List ℕ) : Type 0 where
  pub size : length l ≡ 32
  pub bytes : (i : ℕ) → get_or l i 0 < 256

abbrev pub IsValid : BitMap256 → Type 0
IsValid m = (w : ℕ) (l : List ℕ) → get m w ≡ some l → IsArray l

get_or-replicate : (n i : ℕ) → get_or {A = ℕ} (replicate n 0) i 0 ≡ 0
get_or-replicate zero i = refl
get_or-replicate (suc n) zero = refl
get_or-replicate (suc n) (suc i) = get_or-replicate n i

zeros-IsArray : IsArray (replicate 32 0)
zeros-IsArray = record { size = refl; bytes = λ i. omega (arith, get_or-replicate 32 i) }

entry-IsArray : (m : BitMap256) (w : ℕ) → IsValid m → IsArray (entry_or_default m w)
unfolding entry_or_default
entry-IsArray m w v = elim (Option-cases (get m w)) [
  | inl q ↦ rw (q, entry_or_default) zeros-IsArray
  | inr (l, q) ↦ rw (q, entry_or_default) (v w l q)
]

get_bit-entry :
    (m : BitMap256) (n : ℕ)
    → get_bit m n ≡ test_bit (get_or (entry_or_default m (n / 256)) (byte_of n) 0) (bit_of n)
unfolding get_bit entry_or_default
get_bit-entry m n = elim (Option-cases (get m (n / 256))) [
  | inl q ↦
      rw (q, get_bit, entry_or_default)
        (sym (
          ap (λ b. test_bit b (bit_of n)) (get_or-replicate 32 (byte_of n))
          ∙ test_bit-zero (bit_of n) (omega arith)))
  | inr (l, q) ↦ rw (q, get_bit, entry_or_default)
]

entry-insert :
    (m : BitMap256) (w u : ℕ) (l : List ℕ)
    → entry_or_default (insert m w l) u ≡ (if nat_beq w u then l else entry_or_default m u)
unfolding entry_or_default
entry-insert m w u l = ground (arith, get-insert m w u l)

set-IsArray : (l : List ℕ) (i b : ℕ) → IsArray l → i < 32 → b < 256 → IsArray (set l i b)
set-IsArray l i b a hi hb = record {
  size = length-set l i b ∙ a.size;
  bytes = λ j. elim (ℕ_discrete i j) [
    | yes e ↦ rw (← e) (omega (arith, get_or-set_self l i b 0, a.size))
    | no n ↦ omega (arith, get_or-set_ne l i j b 0 n, a.bytes j)
  ];
}

new_word : (ℕ → ℕ → ℕ) → BitMap256 → ℕ → List ℕ
new_word op m n =
    set (entry_or_default m (n / 256)) (byte_of n)
      (op (get_or (entry_or_default m (n / 256)) (byte_of n) 0) (bit_of n))

update_bit_lem :
    (op : ℕ → ℕ → ℕ) (m : BitMap256) (n : ℕ)
    → update_bit op m n ≡ (insert m (n / 256) (new_word op m n), get_bit m n)
unfolding update_bit new_word
update_bit_lem op m n =
    ap (λ b. (insert m (n / 256) (new_word op m n), b)) (sym (get_bit-entry m n))

module _ (op : ℕ → ℕ → ℕ) (v : Bool → Bool) (u : IsBitUpdate op v) (m : BitMap256)
    (h : IsValid m) where
  new_word-IsArray : (n : ℕ) → IsArray (new_word op m n)
  unfolding new_word
  new_word-IsArray n =
      let old = entry-IsArray m (n / 256) h in
      set-IsArray (entry_or_default m (n / 256)) (byte_of n)
        (op (get_or (entry_or_default m (n / 256)) (byte_of n) 0) (bit_of n)) old (omega arith)
        (u.is_byte (get_or (entry_or_default m (n / 256)) (byte_of n) 0) (bit_of n)
          (old.bytes (byte_of n)) (omega arith))

  update_bit-IsValid : (n : ℕ) → IsValid (update_bit op m n).0
  update_bit-IsValid n w l q = elim (Bool-cases (nat_beq (n / 256) w)) [
    | inl same ↦
        let e : l ≡ new_word op m n =
          ground (arith, update_bit_lem op m n, get-insert m (n / 256) w (new_word op m n)) in
        rw e (new_word-IsArray n)
    | inr other ↦
        h w l (ground (arith, update_bit_lem op m n, get-insert m (n / 256) w (new_word op m n)))
  ]

  old_byte : ℕ → ℕ
  old_byte n = get_or (entry_or_default m (n / 256)) (byte_of n) 0

  old_is_byte : (n : ℕ) → old_byte n < 256
  unfolding old_byte
  old_is_byte n = (entry-IsArray m (n / 256) h).bytes (byte_of n)

  same_byte :
      (n k : ℕ)
      → byte_of n ≡ byte_of k
      → get_or (new_word op m n) (byte_of k) 0 ≡ op (old_byte n) (bit_of n)
  unfolding new_word old_byte
  same_byte n k f = rw (← f) (
      get_or-set_self (entry_or_default m (n / 256)) (byte_of n)
        (op (get_or (entry_or_default m (n / 256)) (byte_of n) 0) (bit_of n)) 0
        (omega (arith, (entry-IsArray m (n / 256) h).size)))

  other_byte :
      (n k : ℕ)
      → byte_of n ≢ byte_of k
      → get_or (new_word op m n) (byte_of k) 0 ≡ get_or (entry_or_default m (n / 256)) (byte_of k) 0
  unfolding new_word
  other_byte n k ne =
      get_or-set_ne (entry_or_default m (n / 256)) (byte_of n) (byte_of k)
        (op (get_or (entry_or_default m (n / 256)) (byte_of n) 0) (bit_of n)) 0 ne

  new_word-bit :
      (n k : ℕ)
      → n / 256 ≡ k / 256
      → test_bit (get_or (new_word op m n) (byte_of k) 0) (bit_of k)
        ≡ (if nat_beq n k then v (get_bit m n) else get_bit m k)
  unfolding old_byte
  new_word-bit n k e = elim (ℕ_discrete (byte_of n) (byte_of k)) [
    | yes f ↦ ground (
      arith,
      same_byte n k f,
      u.bits (old_byte n) (bit_of n) (bit_of k) (old_is_byte n) (omega arith) (omega arith),
      get_bit-entry m n,
      get_bit-entry m k,
      nat_beq_iff n k,
      nat_beq_iff (bit_of n) (bit_of k),
    )
    | no ne ↦ ground (arith, other_byte n k ne, get_bit-entry m k, nat_beq_iff n k)
  ]

  pub update_bit-get :
      (n k : ℕ)
      → get_bit (update_bit op m n).0 k ≡ (if nat_beq n k then v (get_bit m n) else get_bit m k)
  update_bit-get n k = elim (ℕ_discrete (n / 256) (k / 256)) [
    | yes e ↦ ground (
      arith,
      update_bit_lem op m n,
      get_bit-entry (insert m (n / 256) (new_word op m n)) k,
      entry-insert m (n / 256) (k / 256) (new_word op m n),
      new_word-bit n k e,
    )
    | no ne ↦ ground (
      arith,
      update_bit_lem op m n,
      get_bit-entry (insert m (n / 256) (new_word op m n)) k,
      get_bit-entry m k,
      entry-insert m (n / 256) (k / 256) (new_word op m n),
    )
  ]

-- Each operation returns the old bit and changes the bit of its number alone: to set, clear or the
-- opposite; the map stays a map to arrays of 32 bytes.
pub bit_operations :
    (m : BitMap256) (n k : ℕ)
    → IsValid m
    → ((set_bit m n).1 ≡ get_bit m n)
      × ((clear_bit m n).1 ≡ get_bit m n)
      × ((toggle_bit m n).1 ≡ get_bit m n)
      × (get_bit (set_bit m n).0 k ≡ (if nat_beq n k then true else get_bit m k))
      × (get_bit (clear_bit m n).0 k ≡ (if nat_beq n k then false else get_bit m k))
      × (get_bit (toggle_bit m n).0 k ≡ (if nat_beq n k then not (get_bit m n) else get_bit m k))
      × IsValid (set_bit m n).0
      × IsValid (clear_bit m n).0
      × IsValid (toggle_bit m n).0
bit_operations m n k h = (
  unfold set_bit in ap (λ p. p.1) (update_bit_lem or_bit m n),
  unfold clear_bit in ap (λ p. p.1) (update_bit_lem and_not_bit m n),
  unfold toggle_bit in ap (λ p. p.1) (update_bit_lem xor_bit m n),
  unfold set_bit in update_bit-get or_bit (λ _. true) or_bit-IsBitUpdate m h n k,
  unfold clear_bit in update_bit-get and_not_bit (λ _. false) and_not_bit-IsBitUpdate m h n k,
  unfold toggle_bit in update_bit-get xor_bit not xor_bit-IsBitUpdate m h n k,
  unfold set_bit in update_bit-IsValid or_bit (λ _. true) or_bit-IsBitUpdate m h n,
  unfold clear_bit in update_bit-IsValid and_not_bit (λ _. false) and_not_bit-IsBitUpdate m h n,
  unfold toggle_bit in update_bit-IsValid xor_bit not xor_bit-IsBitUpdate m h n,
)

-- A cleanup forgets the 256 numbers of its prefix and no other.
pub get_bit-cleanup_by_prefix :
    (m : BitMap256) (prefix k : ℕ)
    → get_bit (cleanup_by_prefix m prefix).0 k
      ≡ (if nat_beq prefix (k / 256) then false else get_bit m k)
unfolding cleanup_by_prefix get_bit
get_bit-cleanup_by_prefix m prefix k = ground (arith, get-remove m prefix (k / 256))

pub cleanup_by_prefix-IsValid :
    (m : BitMap256) (prefix : ℕ) → IsValid m → IsValid (cleanup_by_prefix m prefix).0
unfolding cleanup_by_prefix
cleanup_by_prefix-IsValid m prefix h w l q = h w l (ground (arith, get-remove m prefix w))
