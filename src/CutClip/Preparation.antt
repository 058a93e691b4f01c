-- ===== src/CutClip/Preparation.antt =====
-- What `main` checks and decides before it writes (tools/cut_clip.py).
use realtime_meeting_transla.Prelude.{
  ℕ, ◌≡◌, refl, subst, Bool, true, false, Option, none, some, List, [], ◌∷◌, Text, text_eq_iff,
  arith, Option-cases, inl, inr,
}
use realtime_meeting_transla.CutClip.{
  Manifest, Arguments, find_recording, load_splits, resolve_bounds, check_locked_set, raise_unless,
  ◌>>=◌, Recording,
}
use mathlib.Core.Option.{some-injective}
use realtime_meeting_transla.CutClip.Audio.{Platform, Disk, source_content, verify_source}
use realtime_meeting_transla.CutClip.Ledger.{Cut, file_name, has_label, prepare}

pub bind-some :
    {A B : Type 0} (o : Option A) (f : A → Option B) (b : B)
    → (o >>= f) ≡ some b
    → (a : A) × (o ≡ some a) × (f a ≡ some b)
bind-some none f b h = absurd (ground arith)
bind-some (some a) f b h = (a, refl, h)

raised : (b : Bool) (u : Unit {0}) → raise_unless b ≡ some u → b ≡ true
raised true u h = refl
raised false u h = absurd (ground arith)

has_label_lem : (labels : List Text) → has_label labels ≡ true → ¬ labels ≡ []
unfolding has_label
has_label_lem [] h e = ground arith
has_label_lem (label ∷ labels) h e = ground arith

labelled-has_label : (labels : List Text) → ¬ labels ≡ [] → has_label labels ≡ true
unfolding has_label
labelled-has_label [] h = absurd (h refl)
labelled-has_label (label ∷ labels) h = refl

module _ (platform : Platform) (loaded : Option Manifest) (args : Arguments) (disk : Disk) where
  -- There is a label; the recording is one of the manifest; the bounds and the locked set are as
  -- the code's checks have them; the file has the hash of the manifest; and the destination is in
  -- the directory that was asked for.
  pub record IsPrepared (cut : Cut) : Type 0 where
    pub labelled : ¬ args.labels ≡ []
    pub manifest : Manifest
    pub read : loaded ≡ some manifest
    pub known : find_recording manifest.recordings args.source ≡ some cut.recording
    pub bounds : resolve_bounds args cut.recording ≡ some (cut.start, cut.end)
    pub permitted :
        check_locked_set (load_splits manifest) cut.start cut.end args.evaluation_run args.purpose
        ≡ some cut.touched
    pub content : List ℕ
    pub there : source_content platform disk cut.recording ≡ some content
    pub hash : platform.sha256 content ≡ cut.recording.sha256
    pub placed :
        cut.destination
        ≡ platform.join_path args.out_dir (file_name args cut.recording cut.start cut.end)

  verified-content :
      (recording : Recording)
      → verify_source platform disk recording ≡ true
      → (content : List ℕ) × (source_content platform disk recording ≡ some content)
        × (platform.sha256 content ≡ recording.sha256)
  unfolding verify_source
  verified-content recording h = elim (Option-cases (source_content platform disk recording)) [
    | inl bad ↦ absurd (let k = rw (verify_source, bad) at h in ground arith)
    | inr (content, there) ↦ (
      content,
      there,
      (text_eq_iff (platform.sha256 content) recording.sha256).0 (rw (verify_source, there) at h),
    )
  ]

  content-verified :
      (recording : Recording) (content : List ℕ)
      → source_content platform disk recording ≡ some content
      → platform.sha256 content ≡ recording.sha256
      → verify_source platform disk recording ≡ true
  unfolding verify_source
  content-verified recording content there hash =
      rw (verify_source, there) ((text_eq_iff (platform.sha256 content) recording.sha256).1 hash)

  -- A run that passes the checks has decided what they say.
  pub prepare-IsPrepared :
      (cut : Cut) → prepare platform loaded args disk ≡ some cut → IsPrepared cut
  unfolding prepare
  prepare-IsPrepared cut h =
      let (u₁, labelled, h₁) = bind-some (raise_unless (has_label args.labels)) _ cut h in
      let (manifest, read, h₂) = bind-some loaded _ cut h₁ in
      let (recording, known, h₃) =
        bind-some (find_recording manifest.recordings args.source) _ cut h₂ in
      let ((start, end), bounds, h₄) = bind-some (resolve_bounds args recording) _ cut h₃ in
      let (touched, permitted, h₅) =
        bind-some
          (check_locked_set (load_splits manifest) start end args.evaluation_run args.purpose) _ cut
          h₄ in
      let (u₂, verified, h₆) =
        bind-some (raise_unless (verify_source platform disk recording)) _ cut h₅ in
      let (content, there, hash) =
        verified-content recording (raised (verify_source platform disk recording) u₂ verified) in
      subst IsPrepared (some-injective _ _ h₆) (record {
        labelled = has_label_lem args.labels (raised (has_label args.labels) u₁ labelled);
        manifest = manifest;
        read = read;
        known = known;
        bounds = bounds;
        permitted = permitted;
        content = content;
        there = there;
        hash = hash;
        placed = refl;
      })

  -- Whatever the checks allow is not refused.
  pub IsPrepared-prepare :
      (cut : Cut)
      → IsPrepared cut
      → (other : Cut) × (prepare platform loaded args disk ≡ some other)
  unfolding prepare
  IsPrepared-prepare cut p =
      let destination =
        platform.join_path args.out_dir (file_name args cut.recording cut.start cut.end) in
      (
        record cut { destination = destination },
        simp (
          prepare,
          labelled-has_label args.labels p.labelled,
          p.read,
          p.known,
          p.bounds,
          p.permitted,
          content-verified cut.recording p.content p.there p.hash,
        ),
      )
