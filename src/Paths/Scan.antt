-- ===== src/Paths/Scan.antt =====
-- The two loops of Itcl_ParseNamespPath (generic/itclUtil.c).
use itcl.Prelude.{
  ℕ, zero, suc, ◌+◌, ◌≡◌, ap, ◌∙◌, ◌<◌, ◌≤◌, true, false, ◌&&◌, Option, none, some, arith, inl, inr,
  Bool-cases, compare-cases,
}
use itcl.Prelude.Bytes.{Bytes}
use itcl.Paths.{colon_at, find_sep, back_up}
use itcl.Paths.Slices.{pair_at, suc_inj}

-- The last pair of colons that ends before an index.
pub record IsSep (name : Bytes) (n s : ℕ) : Type 0 where
  pub colon : colon_at name s ≡ true
  pub before : (k : ℕ) → s ≡ k + 1 → colon_at name k ≡ true
  pub positive : 0 < s
  pub bound : s < n
  pub last : (k : ℕ) → s ≤ k → k + 1 < n → pair_at name k ≡ false

pub record IsBack (name : Bytes) (s e : ℕ) : Type 0 where
  pub bound : e ≤ s
  pub colons : (k : ℕ) → e ≤ k → k < s → colon_at name k ≡ true
  pub stop : (k : ℕ) → e ≡ k + 1 → colon_at name k ≡ false

pub back_up-IsBack : (name : Bytes) (s : ℕ) → IsBack name s (back_up name s)
unfolding back_up
back_up-IsBack name zero = record {
  bound = omega arith;
  colons = λ k a b. absurd (omega arith);
  stop = λ k a. absurd (omega arith);
}
back_up-IsBack name (suc s) = elim (Bool-cases (colon_at name s)) [
  | inl b ↦
      let r = back_up-IsBack name s in
      rw b (record {
        bound = omega (arith, r.bound);
        colons = λ k u v. elim (compare-cases k s) [
          | inl t ↦ r.colons k u t
          | inr (inl t) ↦ ap (colon_at name) t ∙ b
          | inr (inr t) ↦ absurd (omega arith)
        ];
        stop = r.stop;
      })
  | inr b ↦ rw b (record {
    bound = omega arith;
    colons = λ k u v. absurd (omega arith);
    stop = λ k q. ap (colon_at name) (suc_inj k s q) ∙ b;
  })
]

pub data Finds (name : Bytes) (n : ℕ) : Option ℕ → Type 0 where
  nowhere : ((k : ℕ) → k + 1 < n → pair_at name k ≡ false) → Finds name n none
  somewhere : (s : ℕ) → IsSep name n s → Finds name n (some s)

-- One more index to look at, where there is no pair.
Finds-suc :
    (name : Bytes) (k : ℕ) (o : Option ℕ)
    → pair_at name k ≡ false
    → Finds name (suc k) o
    → Finds name (suc (suc k)) o
Finds-suc name k none b (nowhere f) = nowhere (λ j l. elim (compare-cases j k) [
  | inl t ↦ f j (omega arith)
  | inr (inl t) ↦ ap (pair_at name) t ∙ b
  | inr (inr t) ↦ absurd (omega arith)
])
Finds-suc name k (some s) b (somewhere s' r) = somewhere s (record {
  colon = r.colon;
  before = r.before;
  positive = r.positive;
  bound = omega (arith, r.bound);
  last = λ j u l. elim (compare-cases j k) [
    | inl t ↦ r.last j u (omega arith)
    | inr (inl t) ↦ ap (pair_at name) t ∙ b
    | inr (inr t) ↦ absurd (omega arith)
  ];
})

pub find_sep-Finds : (name : Bytes) (n : ℕ) → Finds name n (find_sep name n)
unfolding find_sep
find_sep-Finds name zero = nowhere (λ k l. absurd (omega arith))
find_sep-Finds name (suc zero) = nowhere (λ k l. absurd (omega arith))
find_sep-Finds name (suc (suc k)) = elim (Bool-cases (colon_at name (suc k) && colon_at name k)) [
  | inl b ↦ rw b (
      somewhere (suc k) (record {
        colon = ground (arith, b);
        before = λ j q. ap (colon_at name) (suc_inj j k q) ∙ ground (arith, b);
        positive = omega arith;
        bound = omega arith;
        last = λ j u l. absurd (omega arith);
      }))
  | inr b ↦ rw b (Finds-suc name k _ (ground (arith, b)) (find_sep-Finds name (suc k)))
]
