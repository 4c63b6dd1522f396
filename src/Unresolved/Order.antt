-- ===== src/Unresolved/Order.antt =====
-- The LRU list and the entries of internal/unresolved/buffer.go hold the same keys.
use mathlib.Core.Logic.{ite}
use lachesis.Base.{ℕ, suc, ◌≡◌, ◌≢◌, refl, Bool, Option, none, some, List, [], ◌∷◌, arith}
use lachesis.Base.GoMap.{get, Distinct, get-delete, delete-Distinct}
use lachesis.Bpf.{FlowKey, FlowKey-discrete}
use lachesis.Unresolved.{FlowEvictor, Buffer, Entry, take_out, back, drop}

-- How often a key stands in the list.
unfoldable pub occurs : FlowKey → List FlowKey → ℕ
occurs k [] = 0
occurs k (j ∷ order) = ite (FlowKey-discrete j k) (suc (occurs k order)) (occurs k order)

abbrev pub present : Option Entry → ℕ
present none = 0
present (some e) = 1

-- The entries are a map, and the list holds each of their keys once and no other.
pub record IsBuffer {E : FlowEvictor} (b : Buffer E) : Type 0 where
  pub distinct : Distinct FlowKey-discrete b.entries
  pub listed : (k : FlowKey) → occurs k b.order ≡ present (get FlowKey-discrete b.entries k)

pub occurs-take_out_self :
    (k : FlowKey) (order : List FlowKey)
    → occurs k order ≢ 0
    → suc (occurs k (take_out k order)) ≡ occurs k order
unfolding occurs take_out
occurs-take_out_self k [] h = ground arith
occurs-take_out_self k (j ∷ order) h = ground (arith, occurs-take_out_self k order)

pub occurs-take_out_ne :
    (k q : FlowKey) (order : List FlowKey) → k ≢ q → occurs q (take_out k order) ≡ occurs q order
unfolding occurs take_out
occurs-take_out_ne k q [] h = refl
occurs-take_out_ne k q (j ∷ order) h = ground (arith, occurs-take_out_ne k q order)

pub occurs-back : (order : List FlowKey) (k : FlowKey) → back order ≡ some k → occurs k order ≢ 0
unfolding occurs back
occurs-back [] k h = ground arith
occurs-back (j ∷ []) k h = ground arith
occurs-back (j ∷ j' ∷ order) k h = ground (arith, occurs-back (j' ∷ order) k)

back-cons : (j : FlowKey) (order : List FlowKey) → back (j ∷ order) ≢ none
unfolding back
back-cons j [] h = cc
back-cons j (j' ∷ order) h = back-cons j' order h

pub occurs-back_none : (order : List FlowKey) (k : FlowKey) → back order ≡ none → occurs k order ≡ 0
unfolding occurs
occurs-back_none [] k h = refl
occurs-back_none (j ∷ order) k h = absurd (back-cons j order h)

module _ {E : FlowEvictor} where
  pub drop-IsBuffer :
      (k : FlowKey) (e : Entry) (del : Bool) (b : Buffer E)
      → get FlowKey-discrete b.entries k ≡ some e
      → IsBuffer b
      → IsBuffer (drop k del b)
  unfolding drop
  drop-IsBuffer k e del b there h = record {
    distinct = delete-Distinct FlowKey-discrete b.entries k h.distinct;
    listed = λ q. ground (
      arith,
      h.listed q,
      h.listed k,
      occurs-take_out_self k b.order,
      occurs-take_out_ne k q b.order,
      get-delete FlowKey-discrete b.entries k q h.distinct,
    );
  }
