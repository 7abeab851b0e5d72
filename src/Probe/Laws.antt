-- ===== src/Probe/Laws.antt =====
-- On probe/__init__.py: a probe ends with a report, and what a report that passed has seen.
use meridian_ociadapter.Prelude.{
  ◌≡◌, refl, sym, Bool, true, false, ◌&&◌, ◌||◌, not, and-true, String, Option, none, some,
  if◌then◌else◌,
}
use meridian_ociadapter.Effect.{Error, Result, ok, err, pure, handle, try_except, ◌>>=◌}
use meridian_ociadapter.Transport.Models.{OciDescriptor}
use meridian_ociadapter.ProbeReport.{OciProbeReport}
use meridian_ociadapter.Probe.Seen.{IsWitnessed, or_not, if_true, deep_body-Triple}
use meridian_ociadapter.Probe.{
  OciDistributionProbe, Canary, fresh_canary, deep_passes, deep_body, deep_report, settle_deep,
  delete_safely, clean_up, run_deep, deep,
}

module _ {W : Type 0} (self : OciDistributionProbe W) where
  -- A report that passed has no failure, its flags say that the canary was pulled, read by a range,
  -- discovered where the binding requires referrers and deleted where it enables deletion, and the
  -- registry answered so.
  pub record IsConsistent (token : String) (r : OciProbeReport) : Type 0 where
    pub seen : r.passed ≡ true → IsWitnessed self token
    pub failed : (e : Error) → r.failure ≡ some e → r.passed ≡ false
    pub pulled : r.passed ≡ true → r.push_pull ≡ true
    pub ranged : r.passed ≡ true → r.range_read ≡ true
    pub discovered : r.passed ≡ true → self.binding.referrers_required ≡ true → r.referrers ≡ true
    pub deleted : r.passed ≡ true → self.binding.deletion_enabled ≡ true → r.deletion ≡ true

  handle-tt : (r : Result (Unit {0})) (w : W) → (handle r (λ _. pure tt) w).0 ≡ ok tt
  unfolding pure
  handle-tt (ok a) w = refl
  handle-tt (err e) w = refl

  pub delete_safely-ok : (d : Option OciDescriptor) (w : W) → (delete_safely self d w).0 ≡ ok tt
  unfolding delete_safely try_except pure
  delete_safely-ok none w = refl
  delete_safely-ok (some d) w = handle-tt _ _

  pub clean_up-ok : (b : Bool) (c : Canary) (w : W) → (clean_up self b c w).0 ≡ ok tt
  unfolding ◌>>=◌
  clean_up-ok false c w = refl
  clean_up-ok true c w = rw (delete_safely-ok c.version w) (delete_safely-ok c.anchor _)

  module _ (token : String) where
    passed-IsConsistent :
        (c : Canary)
        → deep_passes self c ≡ true
        → IsWitnessed self token
        → IsConsistent token (deep_report self true c none)
    passed-IsConsistent c h seen =
        let required = c.referrers || not self.binding.referrers_required in
        let (x, d) =
          and-true (c.push_pull && c.range_read && required)
            (if self.binding.deletion_enabled then c.deletion else true) h in
        let (y, f) = and-true (c.push_pull && c.range_read) required x in
        let (p, r) = and-true c.push_pull c.range_read y in
        record {
          seen = λ _. seen;
          failed = λ e q. cc;
          pulled = λ _. p;
          ranged = λ _. r;
          discovered = λ _. or_not c.referrers self.binding.referrers_required f;
          deleted = λ _. if_true self.binding.deletion_enabled c.deletion d;
        }

    failed-IsConsistent :
        (c : Canary) (e : Option Error) → IsConsistent token (deep_report self false c e)
    failed-IsConsistent c e = record {
      seen = λ q. cc;
      failed = λ x q. refl;
      pulled = λ q. cc;
      ranged = λ q. cc;
      discovered = λ q _. cc;
      deleted = λ q _. cc;
    }

    report-IsConsistent :
        (b : Bool) (c : Canary)
        → b ≡ deep_passes self c
        → (b ≡ true → IsWitnessed self token)
        → IsConsistent token (deep_report self b c none)
    report-IsConsistent true c h seen = passed-IsConsistent c (sym h) (seen refl)
    report-IsConsistent false c h seen = failed-IsConsistent c none

    settle_deep-IsConsistent :
        (r : Result Bool × (W × Canary))
        → ((b : Bool)
            → r.0 ≡ ok b
            → (b ≡ deep_passes self r.1.1) × (b ≡ true → IsWitnessed self token))
        → IsConsistent token (settle_deep self r).0
    settle_deep-IsConsistent (ok b, (w, c)) h =
        let (passes, seen) = h b refl in report-IsConsistent b c passes seen
    settle_deep-IsConsistent (err e, (w, c)) h = failed-IsConsistent c (some e)

    run_deep-IsConsistent :
        (w : W) → (r : OciProbeReport) × ((run_deep self token w).0 ≡ ok r) × IsConsistent token r
    unfolding run_deep ◌>>=◌ pure
    run_deep-IsConsistent w =
        let s = settle_deep self (deep_body self token (w, fresh_canary)) in
        (
          s.0,
          rw (clean_up-ok self.binding.deletion_enabled s.1.1 s.1.0) refl,
          settle_deep-IsConsistent (deep_body self token (w, fresh_canary))
              ((deep_body-Triple self token).at w fresh_canary tt),
        )

  -- Once its token is there, a deep probe returns a report, whatever the registry answers and whatever
  -- the calls raise. It passes only if the registry answered, for the version's tag that it published,
  -- the manifest of that version; for the payload's bytes 1 to 3, those bytes; where the
  -- binding requires referrers, a list for the anchor with the version; and, where the binding enables
  -- deletion, that both manifests were deleted. A report that passes has these flags, and one with
  -- a failure does not pass.
  pub deep-IsConsistent :
      (w : W) (token : String)
      → (self.token_hex w).0 ≡ ok token
      → (r : OciProbeReport) × ((deep self w).0 ≡ ok r) × IsConsistent token r
  unfolding deep ◌>>=◌
  deep-IsConsistent w token e = rw e (run_deep-IsConsistent token (self.token_hex w).1)
