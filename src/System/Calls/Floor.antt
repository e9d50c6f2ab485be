-- ===== src/System/Calls/Floor.antt =====
-- The replica floor of an HPA, while the calls of any webhooks interleave.
use reliability_lab.Common.{◌≡◌, refl, subst, false, ok, arith}
use reliability_lab.Common.Int.{ℤ, pos, ◌+ℤ◌, ◌≤ℤ◌, leb_ℤ, IsInt32}
use reliability_lab.Dedupe.{Dedupe}
use reliability_lab.Dedupe.Clock.{Time}
use reliability_lab.Remedy.Cluster.{Client, Hpa, Key}
use reliability_lab.Remedy.ScaleUp.{current_of, target_of, bumped}
use reliability_lab.Remedy.ScaleUp.Races.Floor.{Fits, bumped-Fits}
use reliability_lab.Manager.{Flags}
use reliability_lab.System.Calls.{Handler, Calls, Steps, started, ApiLaws}
use reliability_lab.System.Calls.Preserves.{Preserved, Steps-Kept, started-Kept}
use reliability_lab.System.Calls.Hpas.{
  IsStored, IsRead, begin-IsStored, begin-IsRead, finish-IsStored, finish-IsRead,
}

module _ {W E : Type 0} (client : Client W E) (laws : ApiLaws client) (flags : Flags) (hk : Key)
    (low top : ℤ) (natural : pos 0 ≤ℤ low) (room : IsInt32 (top +ℤ pos 2)) where
  -- The HPA is found with this maximum and a floor between the two.
  abbrev InRange : W → Type 0
  InRange = IsStored client hk (Fits hk low top)

  -- What a scale-up has read of the HPA.
  abbrev ReadInRange : Handler E → Type 0
  ReadInRange = IsRead hk (Fits hk low top)

  writes :
      (h now : Hpa)
      → leb_ℤ (target_of (pos 2) h) (current_of h) ≡ false
      → Fits hk low top h
      → Fits hk low top now
      → Fits hk low top (bumped (target_of (pos 2) h) now)
  writes h now bump = bumped-Fits hk low top (pos 2) natural (ground arith) room h now

  -- What a handler holds is about the object that it has read, so the others keep it.
  calls-InRange : Preserved client flags InRange (λ w. ReadInRange)
  calls-InRange = record {
    serves = λ w h. tt;
    begins = λ k now a rest w e (h, got, fits). (
      begin-IsStored client laws flags hk _ _ writes k now a rest w (h, got, fits),
      begin-IsRead client laws flags hk _ _ writes k now a rest w
          (λ up g got'. let same : h ≡ g = cc in subst (Fits hk low top) same fits),
      (λ g held. held),
    );
    finishes = λ h w held inv. (
      finish-IsStored client laws flags hk _ _ writes h w held inv,
      finish-IsRead client laws flags hk _ _ writes h w,
      (λ g kept. kept),
    );
  }

  pub started-InRange :
      {clock : Time} {d : Dedupe} {w : W} {s : Calls W E}
      → InRange w
      → Steps client flags (started clock d w) s
      → InRange s.cluster
  started-InRange {clock} {d} {w} inv run =
      (Steps-Kept client flags InRange (λ v. ReadInRange) calls-InRange run
        (started-Kept client flags InRange (λ v. ReadInRange) calls-InRange clock d w inv)).0

-- Whatever the webhooks and however the calls that their remedies make interleave, some of them
-- refused: under the laws of creates and merge patches, where a write to one object leaves the others
-- alone, if an HPA is found with a floor that is not negative and at most its maximum, and the maximum
-- and the operator's step of two fit int32, then in every state that the operator reaches the HPA is
-- found, its maximum is unchanged, and its floor is at least the one at the start and at most the
-- maximum.
pub calls_keep_floor :
    {W E : Type 0} (client : Client W E) (flags : Flags) (key : Key) (h : Hpa) {clock : Time}
    {d : Dedupe} {w : W} {s : Calls W E}
    → ApiLaws client
    → client.get_hpa key w ≡ ok h
    → pos 0 ≤ℤ current_of h
    → current_of h ≤ℤ h.max_replicas
    → IsInt32 (h.max_replicas +ℤ pos 2)
    → Steps client flags (started clock d w) s
    → (h' : Hpa) × (client.get_hpa key s.cluster ≡ ok h')
      × (h'.max_replicas ≡ h.max_replicas)
      × (current_of h ≤ℤ current_of h')
      × (current_of h' ≤ℤ h.max_replicas)
calls_keep_floor client flags key h {w = w} laws got natural below room run =
    let fits : Fits key (current_of h) h.max_replicas h = record {
      own = laws.hpas.get_hpa-key key w h got;
      max = refl;
      above = ground arith;
      below = below;
    } in
    let (h', found, f) =
      started-InRange client laws flags key _ _ natural room (h, got, fits) run in
    (h', found, f.max, f.above, f.below)
