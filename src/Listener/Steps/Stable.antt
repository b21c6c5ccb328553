-- ===== src/Listener/Steps/Stable.antt =====
-- A property of the native tables that every statement keeps is kept by every handler made of them.
use scim_bridge.Base.{◌≡◌, refl, String, Bool, true, false, Option, any, if◌then◌else◌}
use scim_bridge.Base.Effects.{pure, ◌>>=◌, continue-Keeps, if-Posts}
use scim_bridge.Native.{UserRow, Native, takes_user_name, upsert_user}
use scim_bridge.Native.Stable.{Stable}
use scim_bridge.Listener.{Ids, Handler}
use scim_bridge.Listener.Steps.{write, written}

module _ {W : Type 0} (P : Native → Type 0) where
  -- The handler leaves the property holding, whether or not it throws.
  pub record Keeps {A : Type 0} (h : Handler W A) : Type 0 where
    pub keeps : (s : Native × (Ids × W)) → P s.0 → P (h s).1.0

  pub unchanged-Keeps :
      {A : Type 0} (h : Handler W A) → ((s : Native × (Ids × W)) → (h s).1.0 ≡ s.0) → Keeps h
  unchanged-Keeps h same = record { keeps = λ s p. rw (same s) p }

  pub pure-Keeps : {A : Type 0} (a : A) → Keeps (pure a)
  pure-Keeps a = record { keeps = λ s p. p }

  pub bind-Keeps :
      {A B : Type 0} {m : Handler W A} {next : A → Handler W B}
      → Keeps m
      → ((a : A) → Keeps (next a))
      → Keeps (m >>= next)
  bind-Keeps {m = m} {next = next} first rest = record {
    keeps = λ s p.
        continue-Keeps (λ t. P t.0) (m s) next (first.keeps s p) (λ a t same q. (rest a).keeps t q);
  }

  pub write-Keeps :
      {hard : Bool}
      → Stable hard P
      → (message : String) (u : UserRow) → Keeps (write message (upsert_user u))
  unfolding upsert_user
  write-Keeps stable message u = record {
    keeps = λ s p.
        if-Posts {A = Option Native} (λ r. P (written message s r).1.0)
          (any (takes_user_name u) s.0.users) _ _ (λ taken. p)
          (λ free. stable.on_upsert_user u s.0 free p);
  }

  pub if-Keeps :
      {A : Type 0} (b : Bool) {m n : Handler W A}
      → (b ≡ true → Keeps m)
      → (b ≡ false → Keeps n)
      → Keeps (if b then m else n)
  if-Keeps true holds rest = holds refl
  if-Keeps false holds rest = rest refl
