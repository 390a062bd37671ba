-- ===== src/Packet/Results.antt =====
-- What holds of the result of a chain of calls that may fault.
use ugly_ff.Base.{◌≡◌, subst, Bool, true, false, Option, none, some, if◌then◌else◌}
use ugly_ff.Packet.{◌>>=◌}

-- what holds of a result, if there is one
pub data Post {A : Type 0} (P : A → Type 0) : Option A → Type 0 where
  no_result : Post P none
  result : {a : A} → P a → Post P (some a)

module _ {A : Type 0} {P : A → Type 0} where
  pub Post-some : {o : Option A} {a : A} → Post P o → o ≡ some a → P a
  Post-some no_result e = cc
  Post-some {a} (result {a = b} p) e = let same : b ≡ a = cc in subst P same p

  pub Post-bind :
      {B : Type 0} (o : Option B) (f : B → Option A) → ((b : B) → Post P (f b)) → Post P (o >>= f)
  Post-bind none f h = no_result
  Post-bind (some b) f h = h b

  pub Post-if : (b : Bool) (x y : Option A) → Post P x → Post P y → Post P (if b then x else y)
  Post-if true x y p q = p
  Post-if false x y p q = q

  -- What holds of the first call's result may be used.
  pub Post-chain :
      {B : Type 0} {Q : B → Type 0} (f : B → Option A) {o : Option B}
      → Post Q o
      → ((b : B) → Q b → Post P (f b))
      → Post P (o >>= f)
  Post-chain f no_result h = no_result
  Post-chain f (result {a = b} q) h = h b q
