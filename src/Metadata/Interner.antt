-- ===== src/Metadata/Interner.antt =====
-- internal/metadata/interner.go: tenants are numbered from 1, in both directions.
use native.Mathlib.Decide.{ℕ_discrete}
use mathlib.Core.Logic.{ite}
use text.Mathlib.Text.{◌==◌ as str_eq}
use text.Mathlib.TextEquality.{eq_iff}
use lachesis.Base.{
  ℕ, ◌+◌, ◌≤◌, ◌<◌, ◌%◌, String, ◌≡◌, ◌≢◌, Option, none, some, [], arith, if◌then◌else◌, ◌==◌,
  Option-cases, inl, inr, Bool-cases,
}
use lachesis.Base.Text.{String-discrete}
use lachesis.Base.Word.{u32_mod}
use lachesis.Base.GoMap.{GoMap, get, put, get-put}

pub record TenantInterner : Type 0 where
  pub next_id : ℕ
  pub forward : GoMap String ℕ
  pub reverse : GoMap ℕ String

abbrev pub tenant_id_unset : ℕ
tenant_id_unset = 0

-- `NewTenantInterner`
abbrev pub new : TenantInterner
new = record { next_id = 1; forward = []; reverse = [] }

-- `Intern` on what `forward` holds
assign : TenantInterner → String → Option ℕ → ℕ × TenantInterner
assign t project_id (some id) = (id, t)
assign t project_id none = (
  t.next_id,
  record {
    next_id = (t.next_id + 1) % u32_mod;
    forward = put String-discrete t.forward project_id t.next_id;
    reverse = put ℕ_discrete t.reverse t.next_id project_id;
  },
)

-- `Intern`: the id, and the interner after the call
unfoldable pub intern : TenantInterner → String → ℕ × TenantInterner
unfolding assign
intern t project_id =
    if str_eq project_id ""
    then (tenant_id_unset, t)
    else assign t project_id (get String-discrete t.forward project_id)

-- `Lookup`; `none` is the pair of `TenantIDUnset` and false
unfoldable pub lookup : TenantInterner → String → Option ℕ
lookup t project_id =
    if str_eq project_id "" then none else get String-discrete t.forward project_id

-- `Reverse`
unfoldable pub reverse : TenantInterner → ℕ → Option String
reverse t id = if id == tenant_id_unset then none else get ℕ_discrete t.reverse id

-- The two maps are inverse to each other, and every id given out lies between 1 and the next.
pub record IsInterner (t : TenantInterner) : Type 0 where
  pub next : 0 < t.next_id
  pub given :
      (p : String) (id : ℕ)
      → get String-discrete t.forward p ≡ some id
      → (0 < id) × (id < t.next_id)
  pub back :
      (p : String) (id : ℕ)
      → get String-discrete t.forward p ≡ some id
      → get ℕ_discrete t.reverse id ≡ some p
  pub forth :
      (p : String) (id : ℕ)
      → get ℕ_discrete t.reverse id ≡ some p
      → get String-discrete t.forward p ≡ some id

pub new-IsInterner : IsInterner new
unfolding get
new-IsInterner = record {
  next = omega arith;
  given = λ p id e. cc;
  back = λ p id e. cc;
  forth = λ p id e. cc;
}

module _ (t : TenantInterner) (p : String) (room : t.next_id + 1 < u32_mod) (h : IsInterner t) where
  fresh : (id : ℕ) → t.next_id ≤ id → get ℕ_discrete t.reverse id ≡ none
  fresh id le = elim (Option-cases (get ℕ_discrete t.reverse id)) [
    | inl e ↦ e
    | inr (q, e) ↦ absurd (omega (arith, h.given q id (h.forth q id e)))
  ]

  get-forward :
      (q : String)
      → get String-discrete (assign t p none).1.forward q
        ≡ ite (String-discrete p q) (some t.next_id) (get String-discrete t.forward q)
  unfolding assign
  get-forward q = get-put String-discrete t.forward p q t.next_id

  get-reverse :
      (id : ℕ)
      → get ℕ_discrete (assign t p none).1.reverse id
        ≡ ite (ℕ_discrete t.next_id id) (some p) (get ℕ_discrete t.reverse id)
  unfolding assign
  get-reverse id = get-put ℕ_discrete t.reverse t.next_id id p

  assign-IsInterner : get String-discrete t.forward p ≡ none → IsInterner (assign t p none).1
  unfolding assign
  assign-IsInterner new = record {
    next = omega arith;
    given = λ q id e. ground (arith, get-forward q, h.given q id);
    back =
        λ q id e. ground (arith, get-forward q, get-reverse id, h.back q id, h.given q id, h.next);
    forth = λ q id e. ground (arith, get-forward q, get-reverse id, h.forth q id, fresh id);
  }

  -- While the next id plus one is below 2^32, `Intern` keeps the numbering sound: the two maps
  -- stay inverse to each other, with every id between 1 and the next.
  pub intern-IsInterner : IsInterner (intern t p).1
  unfolding intern
  intern-IsInterner = elim (Bool-cases (str_eq p "")) [
    | inl e ↦ rw e h
    | inr e ↦ elim (Option-cases (get String-discrete t.forward p)) [
      | inl new ↦ rw (e, new) (assign-IsInterner new)
      | inr (id, old) ↦ rw (e, old) h
    ]
  ]

  back_known :
      (id : ℕ)
      → get String-discrete t.forward p ≡ some id
      → (get ℕ_discrete t.reverse id ≡ some p) × (0 < id)
  back_known id e = (h.back p id e, (h.given p id e).0)

  -- While the numbering is sound and has room, and for a project that is not the empty text: the
  -- id that `Intern` returns is what `Lookup` then finds for the project, what `Intern` returns
  -- the next time, and what `Reverse` takes back to the project; and no id that was given out
  -- before changes.
  pub intern_lem :
      p ≢ ""
      → (lookup (intern t p).1 p ≡ some (intern t p).0)
        × (intern (intern t p).1 p ≡ intern t p)
        × (reverse (intern t p).1 (intern t p).0 ≡ some p)
        × ((q : String) (id : ℕ) → lookup t q ≡ some id → lookup (intern t p).1 q ≡ some id)
  unfolding intern assign lookup reverse
  intern_lem ne = (
    ground (arith, eq_iff p "", get-forward p),
    ground (arith, eq_iff p "", get-forward p),
    elim (Option-cases (get String-discrete t.forward p)) [
      | inl new ↦ ground (arith, eq_iff p "", get-reverse t.next_id, h.next)
      | inr (id, old) ↦ ground (arith, eq_iff p "", back_known id old)
    ],
    λ q id. ground (arith, get-forward q),
  )
