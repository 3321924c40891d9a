-- ===== src/Limits/Names.antt =====
-- The names of the counters of the middleware differ.
use Prim.Native.String
use text.Mathlib.TextLemmas.{append_assoc, append_inj}
use realtime_collaborative_e.Base.{String, ◌≡◌, ◌≢◌, refl, sym, ◌∙◌, false, ◌===◌, arith, eq_iff}

-- Texts that begin with different texts of one length.
apart :
    (p q a b : String)
    → String.count p ≡ String.count q
    → (p === q) ≡ false
    → String.◌++◌ p a ≢ String.◌++◌ q b
apart p q a b h f e = ground (arith, eq_iff p q, (append_inj e h).0)

pub any_not_docs :
    (a b : String) → String.◌++◌ "rate:any:ip:" a ≢ String.◌++◌ "rate:" (String.◌++◌ "docs" b)
any_not_docs a b e =
    apart "rate:any" "rate:doc" (String.◌++◌ ":ip:" a) (String.◌++◌ "s" b) refl refl (
      sym (append_assoc "rate:any" ":ip:" a)
      ∙ e
      ∙ sym (append_assoc "rate:" "docs" b)
      ∙ append_assoc "rate:doc" "s" b)

pub emergency_not_any : (a b : String) → String.◌++◌ "rate:ip:" a ≢ String.◌++◌ "rate:any:ip:" b
emergency_not_any a b e =
    apart "rate:i" "rate:a" (String.◌++◌ "p:" a) (String.◌++◌ "ny:ip:" b) refl refl
      (sym (append_assoc "rate:i" "p:" a) ∙ e ∙ append_assoc "rate:a" "ny:ip:" b)

pub emergency_not_docs :
    (a b : String) → String.◌++◌ "rate:ip:" a ≢ String.◌++◌ "rate:" (String.◌++◌ "docs" b)
emergency_not_docs a b e =
    apart "rate:i" "rate:d" (String.◌++◌ "p:" a) (String.◌++◌ "ocs" b) refl refl (
      sym (append_assoc "rate:i" "p:" a)
      ∙ e
      ∙ sym (append_assoc "rate:" "docs" b)
      ∙ append_assoc "rate:d" "ocs" b)

pub user_not_docs :
    (a b : String) → String.◌++◌ "rate:any:user:" a ≢ String.◌++◌ "rate:" (String.◌++◌ "docs" b)
user_not_docs a b e =
    apart "rate:any" "rate:doc" (String.◌++◌ ":user:" a) (String.◌++◌ "s" b) refl refl (
      sym (append_assoc "rate:any" ":user:" a)
      ∙ e
      ∙ sym (append_assoc "rate:" "docs" b)
      ∙ append_assoc "rate:doc" "s" b)
