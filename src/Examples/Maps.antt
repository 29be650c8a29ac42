-- ===== src/Examples/Maps.antt =====
-- An association list as a hash map, to run the registry on.
use faith.Common.{
  ℕ, ◌≡◌, ◌≢◌, refl, sym, ap, ◌∙◌, List, [], ◌∷◌, Bool, true, false, Option, none, some, ◌⊎◌, inl,
  inr,
}
use faith.Server.HashMap.{HashMap}
use mathlib.Core.List.{List-discrete}
use mathlib.Core.Bool.{false≢true}
use mathlib.Core.Option.{none-ne-some}
use native.Mathlib.Decide.{ℕ_discrete}

abbrev pub Entries : Type 0 → Type 0
Entries V = List (List ℕ × V)

as_sum : {A : Type 0} → Dec A → A ⊎ (A → ⊥)
as_sum (yes a) = inl a
as_sum (no n) = inr n

pub same_key : (xs ys : List ℕ) → (xs ≡ ys) ⊎ (xs ≢ ys)
same_key xs ys = as_sum (List-discrete ℕ_discrete xs ys)

module _ {V : Type 0} where
  entry : {k k' : List ℕ} → (k ≡ k') ⊎ (k ≢ k') → V → Option V → Option V
  entry (inl a) v rest = some v
  entry (inr b) v rest = rest

  pub get : Entries V → List ℕ → Option V
  get [] k = none
  get ((k', v) ∷ m) k = entry (same_key k' k) v (get m k)

  keep : {k k' : List ℕ} → (k ≡ k') ⊎ (k ≢ k') → (List ℕ × V) → Entries V → Entries V
  keep (inl a) e m = m
  keep (inr b) e m = e ∷ m

  pub del : Entries V → List ℕ → Entries V
  del [] k = []
  del ((k', v) ∷ m) k = keep (same_key k' k) (k', v) (del m k)

  pub put : Entries V → List ℕ → V → Entries V
  put m k v = (k, v) ∷ del m k

  pub all_values : Entries V → List V
  all_values [] = []
  all_values ((k, v) ∷ m) = v ∷ all_values m

  pub is_nil : Entries V → Bool
  is_nil [] = true
  is_nil (e ∷ m) = false

  entry_same :
      {k k' : List ℕ} (s : (k ≡ k') ⊎ (k ≢ k')) (v : V) (rest : Option V)
      → k ≡ k'
      → entry s v rest ≡ some v
  unfolding entry
  entry_same (inl a) v rest e = refl
  entry_same (inr b) v rest e = absurd (b e)

  entry_other :
      {k k' : List ℕ} (s : (k ≡ k') ⊎ (k ≢ k')) (v : V) (rest : Option V)
      → k ≢ k'
      → entry s v rest ≡ rest
  unfolding entry
  entry_other (inl a) v rest n = absurd (n a)
  entry_other (inr b) v rest n = refl

  get-keep :
      {k' k : List ℕ} (s : (k' ≡ k) ⊎ (k' ≢ k)) (v : V) (m : Entries V)
      → get m k ≡ none
      → get (keep s (k', v) m) k ≡ none
  unfolding get keep
  get-keep (inl a) v m e = e
  get-keep {k'} {k} (inr b) v m e = entry_other (same_key k' k) v (get m k) b ∙ e

  pub get-del_lem : (m : Entries V) (k : List ℕ) → get (del m k) k ≡ none
  unfolding get del
  get-del_lem [] k = refl
  get-del_lem ((k', v) ∷ m) k = get-keep (same_key k' k) v (del m k) (get-del_lem m k)

  get-keep_other :
      {j k : List ℕ} (k' : List ℕ) (s : (j ≡ k) ⊎ (j ≢ k)) (v : V) (m m' : Entries V)
      → k ≢ k'
      → get m k' ≡ get m' k'
      → get (keep s (j, v) m) k' ≡ entry (same_key j k') v (get m' k')
  unfolding get keep
  get-keep_other {j} k' (inl a) v m m' n e =
      e ∙ sym (entry_other (same_key j k') v (get m' k') (λ (p : j ≡ k'). n (sym a ∙ p)))
  get-keep_other {j} k' (inr b) v m m' n e = ap (entry (same_key j k') v) e

  pub get-del_other_lem : (m : Entries V) (k k' : List ℕ) → k ≢ k' → get (del m k) k' ≡ get m k'
  unfolding get del
  get-del_other_lem [] k k' n = refl
  get-del_other_lem ((j, v) ∷ m) k k' n =
      get-keep_other k' (same_key j k) v (del m k) m n (get-del_other_lem m k k' n)

  pub get-put_lem : (m : Entries V) (k : List ℕ) (v : V) → get (put m k v) k ≡ some v
  unfolding get put
  get-put_lem m k v = entry_same (same_key k k) v (get (del m k) k) refl

  pub get-put_other_lem :
      (m : Entries V) (k k' : List ℕ) (v : V) → k ≢ k' → get (put m k v) k' ≡ get m k'
  unfolding get put
  get-put_other_lem m k k' v n =
      entry_other (same_key k k') v (get (del m k) k') n ∙ get-del_other_lem m k k' n

  pub nothing_there : (k : List ℕ) → get [] k ≡ none
  unfolding get
  nothing_there k = refl

  pub is_nil-none : (m : Entries V) (k : List ℕ) → is_nil m ≡ true → get m k ≡ none
  unfolding get is_nil
  is_nil-none [] k e = refl
  is_nil-none (e ∷ m) k p = absurd (false≢true p)

  pub is_nil-some : (m : Entries V) (k : List ℕ) (v : V) → get m k ≡ some v → is_nil m ≡ false
  unfolding get is_nil
  is_nil-some [] k v e = absurd (none-ne-some v e)
  is_nil-some (e ∷ m) k v p = refl

-- The stb_ds maps as association lists.
abbrev pub lists : (V : Type 0) → HashMap (List ℕ) V
lists V = record {
  Map = Entries V;
  empty = [];
  get = get;
  put = put;
  del = del;
  same = same_key;
  is_empty = is_nil;
  values = all_values;
  get-empty = nothing_there;
  get-put = get-put_lem;
  get-put_other = get-put_other_lem;
  get-del = get-del_lem;
  get-del_other = get-del_other_lem;
  is_empty-none = is_nil-none;
  is_empty-some = is_nil-some;
}
