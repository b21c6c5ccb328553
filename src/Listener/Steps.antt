-- ===== src/Listener/Steps.antt =====
-- The steps that handlers of events are made of: calls outside, reads and statements.
pub mod Stable
use scim_bridge.Base.{String, Option, none, some}
use scim_bridge.Base.Result.{Result, ok, err}
use scim_bridge.Native.{Native}
use scim_bridge.Listener.{Ids, Learning, Handler, Outcome, Action}

abbrev pub outcome : Action → String → Option String → Outcome
outcome action detail idp_id = record { action = action; detail = detail; idp_id = idp_id }

-- A call outside that reads the native tables.
abbrev pub consult : {W A : Type 0} → (Native → Ids → Learning W A) → Handler W A
consult f s = let r = f s.0 s.1.0 s.1 in (r.0, (s.0, r.1))

abbrev pub ask : {W A : Type 0} → (Native → A) → Handler W A
ask f s = (ok (f s.0), s)

abbrev pub look : {W A : Type 0} → (Native → Ids → A) → Handler W A
look f s = (ok (f s.0 s.1.0), s)

abbrev pub change : {W : Type 0} → (Native → Native) → Handler W (Unit {0})
change f s = (ok tt, (f s.0, s.1))

abbrev pub written :
    {W : Type 0}
    → String
    → Native × (Ids × W)
    → Option Native
    → Result String (Unit {0}) × (Native × (Ids × W))
written message s none = (err message, s)
written message s (some native) = (ok tt, (native, s.1))

-- A statement that throws where it violates a constraint.
abbrev pub write : {W : Type 0} → String → (Native → Option Native) → Handler W (Unit {0})
write message f s = written message s (f s.0)
