-- ===== src/Abr/Reasons.antt =====
-- The text that `appendReason` of internal/abr/policy_engine.go builds up.
use lalo_lao_alo.Base.{false, List, [], ◌∷◌, ◌++◌, ◌≡◌, refl, sym, is_empty}
use mathlib.Core.List.{append_assoc}
use lalo_lao_alo.Text.{Text, text}
use lalo_lao_alo.Abr.Rules.{append_reason}

abbrev pub join : Text → List Text → Text
join sep [] = []
join sep (s ∷ []) = s
join sep (s ∷ t ∷ ts) = s ++ sep ++ join sep (t ∷ ts)

-- The list from its first name on that is not empty.
abbrev pub from_named : List Text → List Text
from_named [] = []
from_named ([] ∷ ns) = from_named ns
from_named ((c ∷ n) ∷ ns) = (c ∷ n) ∷ ns

join-snoc :
    (sep s n : Text) (ts : List Text)
    → join sep ((s ∷ ts) ++ n ∷ []) ≡ join sep (s ∷ ts) ++ sep ++ n
join-snoc sep s n [] = refl
join-snoc sep s n (t ∷ ts) = simp (join-snoc sep t n ts, append_assoc)

join-nonempty : (sep n : Text) (ts : List Text) (c : _) → is_empty (join sep ((c ∷ n) ∷ ts)) ≡ false
join-nonempty sep n [] c = refl
join-nonempty sep n (t ∷ ts) c = refl

-- The name of one more rule.
pub append_reason-join :
    (ns : List Text) (n : Text)
    → append_reason (join (text "; ") (from_named ns)) n
      ≡ join (text "; ") (from_named (ns ++ n ∷ []))
unfolding append_reason
append_reason-join [] [] = refl
append_reason-join [] (c ∷ n) = refl
append_reason-join ([] ∷ ns) n = append_reason-join ns n
append_reason-join ((c ∷ m) ∷ ns) n =
    rw (join-nonempty (text "; ") m ns c) (sym (join-snoc (text "; ") (c ∷ m) n ns))
