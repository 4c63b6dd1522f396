-- ===== src/Reconcile/Routers/Changes.antt =====
-- internal/reconcile/routers.go: a MAC that is not noted as changed has the label that it had.
use native.Mathlib.Decide.{ℕ_discrete}
use text.Mathlib.Text.{◌==◌ as str_eq}
use text.Mathlib.TextEquality.{eq_iff}
use lachesis.Base.{
  ℕ, ◌≡◌, ◌≢◌, refl, sym, ap, ◌∙◌, String, true, not, Option, none, some, [], ◌∷◌, Bool-cases,
  Option-cases, inl, inr,
}
use lachesis.Base.GoMap.{GoMap, get, put}
use lachesis.Base.GoMap.Range.{get-row_self, get-row_ne, put_present}
use lachesis.Reconcile.Routers.{Changed, label_changed, changed_labels, gone_labels, changed_macs}

get-none : (q : ℕ) → get {V = String} ℕ_discrete [] q ≡ none
unfolding get
get-none q = refl

some_injective : {a b : String} → some a ≡ some b → a ≡ b
some_injective e = cc e

-- A MAC that is noted stays noted.
changed_labels-old :
    (old desired : GoMap ℕ String) (changed : Changed) (q : ℕ)
    → get ℕ_discrete changed q ≢ none
    → get ℕ_discrete (changed_labels old desired changed) q ≢ none
unfolding changed_labels
changed_labels-old old [] changed q ne = ne
changed_labels-old old ((mac, ext) ∷ desired) changed q ne =
    elim (Bool-cases (label_changed (get ℕ_discrete old mac) ext)) [
      | inl new ↦ rw new (
          changed_labels-old old desired (put ℕ_discrete changed mac tt) q
            (put_present ℕ_discrete changed mac q tt (inr ne)))
      | inr same ↦ rw same (changed_labels-old old desired changed q ne)
    ]

changed_labels-new :
    (old desired : GoMap ℕ String) (changed : Changed) (q : ℕ) (ext : String)
    → get ℕ_discrete desired q ≡ some ext
    → label_changed (get ℕ_discrete old q) ext ≡ true
    → get ℕ_discrete (changed_labels old desired changed) q ≢ none
unfolding changed_labels
changed_labels-new old [] changed q ext here new = cc (here, get-none q)
changed_labels-new old ((mac, e) ∷ desired) changed q ext here new = elim (ℕ_discrete mac q) [
  | yes own ↦
      let same : e ≡ ext = some_injective (sym (get-row_own own) ∙ here) in
      let changes : label_changed (get ℕ_discrete old mac) e ≡ true = cc (own, same, new) in
      rw changes (
        changed_labels-old old desired (put ℕ_discrete changed mac tt) q
          (put_present ℕ_discrete changed mac q tt (inl own)))
  | no other ↦
      changed_labels-new old desired _ q ext (get-row_ne ℕ_discrete desired q mac e other ∙ here)
        new
]
  where
    get-row_own : mac ≡ q → get ℕ_discrete ((mac, e) ∷ desired) q ≡ some e
    get-row_own own = cc (get-row_self ℕ_discrete desired mac e, own)

gone_labels-old :
    (desired old : GoMap ℕ String) (changed : Changed) (q : ℕ)
    → get ℕ_discrete changed q ≢ none
    → get ℕ_discrete (gone_labels desired old changed) q ≢ none
unfolding gone_labels
gone_labels-old desired [] changed q ne = ne
gone_labels-old desired ((mac, ext) ∷ old) changed q ne =
    elim (Option-cases (get ℕ_discrete desired mac)) [
      | inl gone ↦ rw gone (
          gone_labels-old desired old (put ℕ_discrete changed mac tt) q
            (put_present ℕ_discrete changed mac q tt (inr ne)))
      | inr (want, there) ↦ rw there (gone_labels-old desired old changed q ne)
    ]

gone_labels-new :
    (desired old : GoMap ℕ String) (changed : Changed) (q : ℕ) (ext : String)
    → get ℕ_discrete old q ≡ some ext
    → get ℕ_discrete desired q ≡ none
    → get ℕ_discrete (gone_labels desired old changed) q ≢ none
unfolding gone_labels
gone_labels-new desired [] changed q ext here gone = cc (here, get-none q)
gone_labels-new desired ((mac, e) ∷ old) changed q ext here gone = elim (ℕ_discrete mac q) [
  | yes own ↦
      let absent : get ℕ_discrete desired mac ≡ none = cc (own, gone) in
      rw absent (
        gone_labels-old desired old (put ℕ_discrete changed mac tt) q
          (put_present ℕ_discrete changed mac q tt (inl own)))
  | no other ↦
      gone_labels-new desired old _ q ext (get-row_ne ℕ_discrete old q mac e other ∙ here) gone
]

-- A MAC that is not noted has, in the wanted map, the label that the published one has.
pub changed_macs-same :
    (desired old : GoMap ℕ String) (q : ℕ)
    → get ℕ_discrete (changed_macs desired old) q ≡ none
    → get ℕ_discrete desired q ≡ get ℕ_discrete old q
unfolding changed_macs
changed_macs-same desired old q absent =
    by_labels (get ℕ_discrete desired q) (get ℕ_discrete old q) refl refl
  where
    noted_new :
        (ext : String)
        → get ℕ_discrete desired q ≡ some ext
        → label_changed (get ℕ_discrete old q) ext ≢ true
    noted_new ext here new =
        gone_labels-old desired old (changed_labels old desired []) q
          (changed_labels-new old desired [] q ext here new) absent

    by_labels :
        (want was : Option String)
        → get ℕ_discrete desired q ≡ want
        → get ℕ_discrete old q ≡ was
        → get ℕ_discrete desired q ≡ get ℕ_discrete old q
    by_labels none none a b = a ∙ sym b
    by_labels none (some ext) a b =
        absurd (gone_labels-new desired old (changed_labels old desired []) q ext b a absent)
    by_labels (some ext) none a b = absurd (noted_new ext a (ap (λ o. label_changed o ext) b))
    by_labels (some ext) (some was) a b = elim (Bool-cases (str_eq was ext)) [
      | inl same ↦ a ∙ ap some (sym ((eq_iff was ext).0 same)) ∙ sym b
      | inr other ↦ absurd (noted_new ext a (ap (λ o. label_changed o ext) b ∙ ap not other))
    ]
