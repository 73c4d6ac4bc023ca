-- ===== src/Daemon/Written.antt =====
-- What Run has written before it starts OPA: the guards, and OPA's configuration.
use egress_gateway.Prelude.{
  ℕ, ◌++◌, ◌≡◌, refl, Bool, true, false, not, Option, none, some, Text, text,
}
use egress_gateway.Prelude.Results.{Result, ok, refuse_if}
use egress_gateway.Inspection.Crypto.{Bytes}
use egress_gateway.Inspection.Ca.Write.{
  Answer, success, exists_error, other_error, Oracle, rename, write_atomic,
}
use egress_gateway.Inspection.Ca.Safety.{IsWrittenFile, write_atomic-IsWrittenFile}
use egress_gateway.Inspection.Ca.Open.{succeeded}
use egress_gateway.Daemon.Envoy.{Generated}
use egress_gateway.Daemon.Request.{Guard}
use egress_gateway.Daemon.Setup.{SetupError, opa_not_written, writes, write_opa}

pub writes-IsWrittenFile :
    (oracle : Oracle) (path : Text) (content : Bytes) (mode : ℕ)
    → not (writes oracle path content mode) ≡ false
    → IsWrittenFile oracle rename path content mode
unfolding writes
writes-IsWrittenFile oracle path content mode h =
    write_atomic-IsWrittenFile oracle rename path content mode
      (succeeds (write_atomic oracle rename path content mode).result h)
  where
    succeeds : (a : Answer) → not (succeeded a) ≡ false → a ≡ success
    succeeds success k = refl
    succeeds exists_error k = absurd (unfold succeeded in cc)
    succeeds other_error k = absurd (unfold succeeded in cc)

-- What prepareOPA has written, if anything
abbrev pub IsWrittenOpa : Oracle → Option Generated → Type 0
IsWrittenOpa oracle none = Unit
IsWrittenOpa oracle (some w) = IsWrittenFile oracle rename w.path w.content w.mode

pub write_opa-IsWrittenOpa :
    (oracle : Oracle) (o : Option Generated) → write_opa oracle o ≡ ok tt → IsWrittenOpa oracle o
unfolding write_opa
write_opa-IsWrittenOpa oracle none h = tt
write_opa-IsWrittenOpa oracle (some w) h =
    writes-IsWrittenFile oracle w.path w.content w.mode
      (refused (not (writes oracle w.path w.content w.mode)) opa_not_written h)
  where
    refused :
        (b : Bool) (e : SetupError)
        → ◌≡◌ {A = Result SetupError (Unit {0})} (refuse_if b e) (ok tt)
        → b ≡ false
    refused true e k = unfold refuse_if in cc
    refused false e k = refl

-- The text of a guard: the role and the scheme, and what the file holds
abbrev pub guard_text : Guard → Text → Text → Text
guard_text g role scheme =
    text "local role = "
    ++ g.quote role
    ++ text "\nlocal scheme = "
    ++ g.quote scheme
    ++ text "\n"
    ++ g.guard
