-- ===== src/Xdp/Maps/List.antt =====
-- A hash map of bounded size as an association list, one of the maps that the laws of
-- Xdp/Maps.antt describe.
use xdp_gradient_aggregation.Common.{
  ℕ, ◌≡◌, ◌≢◌, refl, sym, ap, ◌∙◌, Bool, true, false, Bool-cases, inl, inr, ltb, if◌then◌else◌,
  Option, none, some, List, [], ◌∷◌, length, arith,
}
use xdp_gradient_aggregation.Xdp.Maps.{MapOps}

pub same_ne :
    {K : Type 0} (same : K → K → Bool)
    → ((j k : K) → same j k ≡ true → j ≡ k)
    → (j k : K) → j ≢ k
    → same j k ≡ false
same_ne same same-eq j k ne = elim (Bool-cases (same j k)) [
  | inl on ↦ absurd (ne (same-eq j k on))
  | inr off ↦ off
]

module _ {K V : Type 0} (same : K → K → Bool) where
  unfoldable pub find : List (K × V) → K → Option V
  find [] k = none
  find ((j, v) ∷ m) k = let rest = find m k in if same j k then some v else rest

  unfoldable pub add : ℕ → List (K × V) → K → V → Option (List (K × V))
  unfolding find
  add capacity m k v = elim (find m k) [
    | some old ↦ none
    | none ↦ if ltb (length m) capacity then some ((k, v) ∷ m) else none
  ]

  unfoldable pub put : List (K × V) → K → V → List (K × V)
  put [] k v = []
  put ((j, u) ∷ m) k v = let rest = put m k v in if same j k then (j, v) ∷ rest else (j, u) ∷ rest

  unfoldable pub remove : List (K × V) → K → List (K × V)
  remove [] k = []
  remove ((j, u) ∷ m) k = let rest = remove m k in if same j k then rest else (j, u) ∷ rest

  module _ (same-eq : (j k : K) → same j k ≡ true → j ≡ k)
      (same_refl : (k : K) → same k k ≡ true) where
    pub find_hit :
        (j k : K) (v : V) (m : List (K × V)) → same j k ≡ true → find ((j, v) ∷ m) k ≡ some v
    unfolding find
    find_hit j k v m h = rw h

    pub find_miss :
        (j k : K) (v : V) (m : List (K × V)) → same j k ≡ false → find ((j, v) ∷ m) k ≡ find m k
    unfolding find
    find_miss j k v m h = rw h

    pub add_cons :
        (c : ℕ) (m : List (K × V)) (k : K) (v : V) (m' : List (K × V))
        → add c m k v ≡ some m'
        → (k, v) ∷ m ≡ m'
    unfolding add
    add_cons c m k v m' e = ground arith

    pub find-put :
        (m : List (K × V)) (k : K) (u v : V) → find m k ≡ some u → find (put m k v) k ≡ some v
    unfolding put
    find-put [] k u v e = unfold find in absurd (ground arith)
    find-put ((j, w) ∷ m) k u v e = elim (Bool-cases (same j k)) [
      | inl on ↦ rw on (find_hit j k v (put m k v) on)
      | inr off ↦
          rw off
            (find_miss j k w (put m k v) off ∙ find-put m k u v (sym (find_miss j k w m off) ∙ e))
    ]

    pub find-put_ne : (m : List (K × V)) (k j : K) (v : V) → j ≢ k → find (put m k v) j ≡ find m j
    unfolding put
    find-put_ne [] k j v ne = refl
    find-put_ne ((i, w) ∷ m) k j v ne = elim (Bool-cases (same i k)) [
      | inl on ↦ elim (Bool-cases (same i j)) [
        | inl both ↦ absurd (ne (sym (same-eq i j both) ∙ same-eq i k on))
        | inr off ↦
            rw on (
              find_miss i j v (put m k v) off
              ∙ find-put_ne m k j v ne
              ∙ sym (find_miss i j w m off))
      ]
      | inr out ↦ elim (Bool-cases (same i j)) [
        | inl here ↦ rw out (find_hit i j w (put m k v) here ∙ sym (find_hit i j w m here))
        | inr off ↦
            rw out (
              find_miss i j w (put m k v) off
              ∙ find-put_ne m k j v ne
              ∙ sym (find_miss i j w m off))
      ]
    ]

    pub find-remove : (m : List (K × V)) (k : K) → find (remove m k) k ≡ none
    unfolding remove
    find-remove [] k = unfold find in refl
    find-remove ((j, u) ∷ m) k = elim (Bool-cases (same j k)) [
      | inl on ↦ rw on (find-remove m k)
      | inr off ↦ rw off (find_miss j k u (remove m k) off ∙ find-remove m k)
    ]

    pub find-remove_ne : (m : List (K × V)) (k j : K) → j ≢ k → find (remove m k) j ≡ find m j
    unfolding remove
    find-remove_ne [] k j ne = refl
    find-remove_ne ((i, u) ∷ m) k j ne = elim (Bool-cases (same i k)) [
      | inl on ↦ elim (Bool-cases (same i j)) [
        | inl both ↦ absurd (ne (sym (same-eq i j both) ∙ same-eq i k on))
        | inr off ↦ rw on (find-remove_ne m k j ne ∙ sym (find_miss i j u m off))
      ]
      | inr out ↦ elim (Bool-cases (same i j)) [
        | inl here ↦ rw out (find_hit i j u (remove m k) here ∙ sym (find_hit i j u m here))
        | inr off ↦ rw out (
            find_miss i j u (remove m k) off
            ∙ find-remove_ne m k j ne
            ∙ sym (find_miss i j u m off))
      ]
    ]

    -- The operations with their laws, for at most `capacity` entries.
    abbrev pub list_maps : ℕ → MapOps K V
    list_maps capacity = record {
      Map = List (K × V);
      lookup = find;
      insert = add capacity;
      store = put;
      erase = remove;
      lookup-insert = λ m k v m' e.
          ap (λ n. find n k) (sym (add_cons capacity m k v m' e)) ∙ find_hit k k v m (same_refl k);
      lookup-insert_ne = λ m k j v m' e ne.
          ap (λ n. find n j) (sym (add_cons capacity m k v m' e))
          ∙ find_miss k j v m (same_ne same same-eq k j (λ x. ne (sym x)));
      lookup-store = find-put;
      lookup-store_ne = find-put_ne;
      lookup-erase = find-remove;
      lookup-erase_ne = find-remove_ne;
    }
