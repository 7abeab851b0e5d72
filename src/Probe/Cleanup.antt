-- ===== src/Probe/Cleanup.antt =====
-- On `deep` of probe/__init__.py: which of the canaries that it publishes it asks the registry to
-- delete again.
use mathlib.Core.Path.{subst}
use meridian_ociadapter.Prelude.{
  ◌≡◌, refl, sym, ap, ◌∙◌, Bool, true, false, List, [], String, Option, none, some, contains_text,
  All, inl, inr,
}
use meridian_ociadapter.Effect.{Result, ok, err, pure, handle, try_except, continue, ◌>>=◌}
use meridian_ociadapter.Effect.Locals.{on_world, assign}
use meridian_ociadapter.Transport.Models.{OciDescriptor}
use meridian_ociadapter.Probe.{
  OciDistributionProbe, Canary, fresh_canary, push_canaries, pull_canaries, remove_canaries,
  deep_body, settle_deep, delete_safely, clean_up, run_deep, deep,
}
use meridian_ociadapter.Probe.Laws.{delete_safely-ok, clean_up-ok}
use meridian_ociadapter.Probe.Accounts.{
  Covered, Accounted, All-mono, Accounted-anchor, Accounted-version, Accounted-dropped,
  Accounted-released, Accounted-weaker, Accounted-looser,
}
use meridian_ociadapter.Probe.Recording.{
  Log, deletes, request_deletion, recording_probe, After, Run, Run-bind, Run-quiet, Run-lifted,
  Run-assign, Run-pure, Run-locals, Run-record_publication, Run-request, Run-raise_if,
  Run-assign_last,
}

module _ {W : Type 0} (self : OciDistributionProbe W) where
  abbrev Untouched : Log → Type 0
  Untouched g = self.binding.deletion_enabled ≡ false → g.deleted ≡ []

  -- At all times: what was published is accounted for by what the variables hold, and nothing is
  -- deleted where the binding does not enable it.
  abbrev Kept : Log → Canary → Type 0
  Kept g c = Accounted c.anchor c.version g × Untouched g

  -- Accounted for by `a` and `v`, while the variables hold `b` and `u`.
  abbrev Holding :
      Option OciDescriptor
      → Option OciDescriptor
      → Option OciDescriptor
      → Option OciDescriptor
      → Log
      → Canary
      → Type 0
  Holding a v b u g c = Accounted a v g × Untouched g × (c.anchor ≡ b) × (c.version ≡ u)

  kept : (a v : Option OciDescriptor) (g : Log) (c : Canary) → Holding a v a v g c → Kept g c
  kept a v g c (h, n, p, q) =
      (subst (λ x. Accounted x c.version g) (sym p) (subst (λ x. Accounted a x g) (sym q) h), n)

  push_canaries-Run :
      (token : String)
      → Run
          (Holding none none none none)
          (push_canaries (recording_probe self) token)
          (λ d. Holding (some d.1) (some d.2) (some d.1) (some d.2))
          Kept
  unfolding push_canaries
  push_canaries-Run token = Run-quiet (kept none none) _ _ λ api_version.
      Run-assign _ _ _ (λ g c h. h)
        (Run-quiet (kept none none) _ _ λ payload. Run-quiet (kept none none) _ _ λ _.
          Run-record_publication _ _ (λ d. Holding (some d) none none none) (kept none none)
            (λ d g c (h, n, p, q). (Accounted-anchor none none d g h, n, p, q))
            λ anchor.
              Run-assign _ _ (Holding (some anchor) none (some anchor) none)
                (λ g c (h, n, p, q). (h, n, refl, q))
                (Run-quiet (kept (some anchor) none) _ _ λ config.
                  Run-quiet (kept (some anchor) none) _ _ λ created_at.
                    Run-record_publication _ _
                      (λ d. Holding (some anchor) (some d) (some anchor) none)
                      (kept (some anchor) none)
                      (λ d g c (h, n, p, q). (Accounted-version (some anchor) none d g h, n, p, q))
                      λ version.
                        Run-assign _ _
                          (Holding (some anchor) (some version) (some anchor) (some version))
                          (λ g c (h, n, p, q). (h, n, p, refl)) (Run-pure _ λ g c h. h)))

  pull_canaries-Run :
      (token : String) (payload anchor version : OciDescriptor)
      → (let P = Holding (some anchor) (some version) (some anchor) (some version) in
          Run P (pull_canaries (recording_probe self) token payload anchor version) (λ _. P) Kept)
  unfolding pull_canaries
  pull_canaries-Run token payload anchor version =
      let k = kept (some anchor) (some version) in
      Run-quiet k _ _ λ pulled.
        Run-assign _ _ _ (λ g c h. h)
          (Run-quiet k _ _ λ stream. Run-lifted k _ _ λ value.
            Run-assign _ _ _ (λ g c h. h)
              (Run-quiet k _ _ λ discovered.
                Run-assign _ _ (Holding (some anchor) (some version) (some anchor) (some version))
                  (λ g c h. h) (Run-raise_if k _ _)))

  remove_canaries-Run :
      (anchor version : OciDescriptor) (b : Bool)
      → b ≡ self.binding.deletion_enabled
      → Run
          (Holding (some anchor) (some version) (some anchor) (some version))
          (remove_canaries (recording_probe self) anchor version b)
          (λ _. Kept)
          Kept
  unfolding remove_canaries
  remove_canaries-Run anchor version false e = Run-pure tt (kept (some anchor) (some version))
  remove_canaries-Run anchor version true e =
      Run-request _ _ _ (Holding (some anchor) none (some anchor) (some version))
        (λ g c (h, n, p, q).
          (Accounted-dropped (some anchor) none version g h, λ f. absurd (enabled f), p, q))
        (λ g c (h, n, p, q).
          kept (some anchor) (some version) g c
            (Accounted-looser (some anchor) (some version) g h, n, p, q))
        λ first.
          Run-assign _ _ (Holding (some anchor) none (some anchor) (some version)) (λ g c h. h)
            (Run-assign _ _ (Holding (some anchor) none (some anchor) none)
              (λ g c (h, n, p, q). (h, n, p, refl))
              (Run-request _ _ _ (Holding none none (some anchor) none)
                (λ g c (h, n, p, q).
                  (Accounted-released none none anchor g h, λ f. absurd (enabled f), p, q))
                (λ g c (h, n, p, q).
                  kept (some anchor) none g c (Accounted-weaker (some anchor) none g h, n, p, q))
                λ second.
                  Run-assign _ _ (Holding none none (some anchor) none) (λ g c h. h)
                    (Run-assign_last _ Kept λ g c (h, n, p, q).
                      kept none none g (record c { anchor = none }) (h, n, refl, q))))
    where
      enabled : self.binding.deletion_enabled ≡ false → ⊥
      enabled f = let same : true ≡ false = e ∙ f in cc

  deep_body-Run :
      (token : String)
      → Run (Holding none none none none) (deep_body (recording_probe self) token) (λ _. Kept) Kept
  unfolding deep_body
  deep_body-Run token = Run-bind _ _ _ (push_canaries-Run token) λ d.
      Run-bind _ _ _ (pull_canaries-Run token d.0 d.1 d.2) λ _.
        Run-bind _ _ (λ _. Kept) (remove_canaries-Run d.1 d.2 self.binding.deletion_enabled refl)
          λ _. Run-locals _ λ c. Run-pure _ λ g x h. h

  abbrev requests : Option OciDescriptor → Log → Log
  requests none g = g
  requests (some d) g = deletes d.digest g

  handle-log : (r : Result (Unit {0})) (w : W × Log) → (handle r (λ _. pure tt) w).1.1 ≡ w.1
  unfolding pure
  handle-log (ok a) w = refl
  handle-log (err e) w = refl

  continue-log : (r : Result Bool) (w : W × Log) → (continue r (λ _. pure tt) w).1.1 ≡ w.1
  unfolding pure
  continue-log (ok a) w = refl
  continue-log (err e) w = refl

  delete_safely-log :
      (d : Option OciDescriptor) (w : W) (g : Log)
      → (delete_safely (recording_probe self) d (w, g)).1.1 ≡ requests d g
  unfolding delete_safely try_except ◌>>=◌ pure request_deletion on_world assign
  delete_safely-log none w g = refl
  delete_safely-log (some d) w g = handle-log _ _ ∙ continue-log _ _

  Accounted-requests-version :
      (a v : Option OciDescriptor) (g : Log) → Accounted a v g → Accounted a none (requests v g)
  Accounted-requests-version a none g h = h
  Accounted-requests-version a (some x) g h = Accounted-dropped a none x g h

  Accounted-requests-anchor :
      (a : Option OciDescriptor) (g : Log) → Accounted a none g → Accounted none none (requests a g)
  Accounted-requests-anchor none g h = h
  Accounted-requests-anchor (some x) g h = Accounted-released none none x g h

  clean_up-log :
      (c : Canary) (w : W) (g : Log)
      → (clean_up (recording_probe self) true c (w, g)).1.1
        ≡ requests c.anchor (requests c.version g)
  unfolding ◌>>=◌
  clean_up-log c w g =
      let s = (delete_safely (recording_probe self) c.version (w, g)).1 in
      rw (delete_safely-ok (recording_probe self) c.version (w, g)) (
        delete_safely-log c.anchor s.0 s.1
        ∙ ap (requests c.anchor) (delete_safely-log c.version w g))

  -- What a deep probe leaves behind: where the binding enables deletion, a deletion was requested of
  -- every manifest whose publication returned; where it does not, no deletion was requested.
  pub record IsClean (g : Log) : Type 0 where
    pub removed :
        self.binding.deletion_enabled ≡ true
        → All (λ d. contains_text d g.deleted ≡ true) g.published
    pub untouched : self.binding.deletion_enabled ≡ false → g.deleted ≡ []

  abbrev empty_log : Log
  empty_log = record { published = []; deleted = [] }

  accounted_gone :
      (ds es : List String)
      → All (Covered none none es) ds
      → All (λ d. contains_text d es ≡ true) ds
  accounted_gone ds es h =
      All-mono ds
        (λ d c. elim c [ inl q ↦ q | inr q ↦ elim q [ inl r ↦ absurd r | inr r ↦ absurd r ] ]) h

  finished :
      (b : Bool) (c : Canary) (w : W) (g : Log)
      → b ≡ self.binding.deletion_enabled
      → Kept g c
      → IsClean (clean_up (recording_probe self) b c (w, g)).1.1
  unfolding pure
  finished false c w g e (h, n) = record {
    removed = λ f. (let same : false ≡ true = e ∙ f in cc);
    untouched = n;
  }
  finished true c w g e (h, n) = subst IsClean (sym (clean_up-log c w g)) (record {
    removed = λ f. accounted_gone (requests c.anchor (requests c.version g)).published _ (
        Accounted-requests-anchor c.anchor (requests c.version g)
          (Accounted-requests-version c.anchor c.version g h));
    untouched = λ f. (let same : true ≡ false = e ∙ f in cc);
  })

  settled :
      (r : Result Bool × ((W × Log) × Canary))
      → After (λ _. Kept) Kept r
      → Kept (settle_deep (recording_probe self) r).1.0.1 (settle_deep (recording_probe self) r).1.1
  settled (ok b, ((w, g), c)) h = h
  settled (err e, ((w, g), c)) h = h

  run_deep-IsClean :
      (token : String) (w : W) → IsClean (run_deep (recording_probe self) token (w, empty_log)).1.1
  unfolding run_deep ◌>>=◌ pure
  run_deep-IsClean token w =
      let s =
        settle_deep (recording_probe self)
          (deep_body (recording_probe self) token ((w, empty_log), fresh_canary)) in
      rw (clean_up-ok (recording_probe self) self.binding.deletion_enabled s.1.1 s.1.0) (
        finished self.binding.deletion_enabled s.1.1 s.1.0.0 s.1.0.1 refl (
          settled _
            ((deep_body-Run token).at w empty_log fresh_canary (tt, (λ _. refl), refl, refl))))

  run_with :
      (r : Result String) (w : W)
      → IsClean (continue r (λ token. run_deep (recording_probe self) token) (w, empty_log)).1.1
  run_with (ok token) w = run_deep-IsClean token w
  run_with (err e) w = record { removed = λ _. tt; untouched = λ _. refl }

  -- However a deep probe ends, each manifest whose publication returned is one whose deletion it requested,
  -- where the binding enables deletion, and it requested no deletion at all, where the binding does
  -- not. A publication that raised is not among them.
  pub deep-IsClean :
      (w : W)
      → IsClean (deep (recording_probe self) (w, record { published = []; deleted = [] })).1.1
  unfolding deep ◌>>=◌ on_world
  deep-IsClean w = run_with (self.token_hex w).0 (self.token_hex w).1
