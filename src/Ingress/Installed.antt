-- ===== src/Ingress/Installed.antt =====
-- internal/ingress/ingress.go: the file in place is the text that Sync last wrote.
use orchestration.Prelude.{
  suc, ◌≡◌, refl, sym, ap, ◌∙◌, ◌⊎◌, inl, inr, Option, none, some, List, [], ◌∷◌, ◌++◌,
  if◌then◌else◌, Bool-cases,
}
use orchestration.Prelude.Text.{Str, str_eq, str_eq_iff, str_eq_refl}
use orchestration.Redis.{Redis}
use orchestration.Client.{
  Error, Result, ok, err, not_written, Act, installed, ran, Env, World, ◌>>=◌, try, pure, fail,
  observe, act, report, hash_get,
}
use orchestration.Client.Idle.{Idle, idle_rules, Idle-scan_keys}
use orchestration.Ingress.{
  Config, Host, Outcome, succeeded, failed, overdue, Backends, backends, read_backends, render,
  must, write, after_reload, reload_by, reload, install, sync,
}

abbrev text_at : Str → Act → Option Str
text_at path (installed p text) = if str_eq p path then some text else none
text_at path _ = none

-- The text of a file, by the renames so far, newest last.
abbrev pub file : Str → List Act → Option Str
file path [] = none
file path (a ∷ acts) = elim (file path acts) [ some text ↦ some text | none ↦ text_at path a ]

file-installed :
    (path text : Str) (acts : List Act) → file path (acts ++ installed path text ∷ []) ≡ some text
file-installed path text [] = rw (str_eq_refl path)
file-installed path text (a ∷ acts) = rw (file-installed path text acts)

file-ran :
    (path : Str) (argv : List Str) (acts : List Act)
    → file path (acts ++ ran argv ∷ []) ≡ file path acts
file-ran path argv [] = refl
file-ran path argv (a ∷ acts) = rw (file-ran path argv acts)

-- The last written text is in place, or nothing was written yet.
abbrev pub IsCurrent : Str → Str → List Act → Type 0
IsCurrent path last acts = (last ≡ []) ⊎ (file path acts ≡ some last)

module _ {r : Redis} (e : Env r) (host : Host) (cfg : Config) where
  -- A write that succeeds ends with the rename; one that fails leaves the file alone.
  write_lem :
      (text : Str) (w : World r)
      → ((write e host cfg text w).0 ≡ ok tt)
          × ((write e host cfg text w).1.acts ≡ w.acts ++ installed cfg.config_path text ∷ [])
        ⊎ ((c : Error) × ((write e host cfg text w).0 ≡ err c)
            × ((write e host cfg text w).1.acts ≡ w.acts))
  unfolding write must observe act ◌>>=◌ pure fail
  write_lem text w = elim (Bool-cases (host.can_create w.tick)) [
    | inr f ↦ rw f (inr (not_written, refl, refl))
    | inl a ↦ elim (Bool-cases (host.can_write (suc w.tick))) [
      | inr f ↦ rw (a, f) (inr (not_written, refl, refl))
      | inl b ↦ elim (Bool-cases (host.can_close (suc (suc w.tick)))) [
        | inr f ↦ rw (a, b, f) (inr (not_written, refl, refl))
        | inl c ↦ elim (Bool-cases (host.can_chmod (suc (suc (suc w.tick))))) [
          | inr f ↦ rw (a, b, c, f) (inr (not_written, refl, refl))
          | inl d ↦ elim (Bool-cases (host.can_rename (suc (suc (suc (suc w.tick)))))) [
            | inr f ↦ rw (a, b, c, d, f) (inr (not_written, refl, refl))
            | inl g ↦ rw (a, b, c, d, g) (inl (refl, refl))
          ]
        ]
      ]
    ]
  ]

  -- A reload leaves the file alone.
  after_reload-file :
      (outcome : Outcome) (w : World r) → (after_reload e host cfg outcome w).1.acts ≡ w.acts
  unfolding after_reload report fail
  after_reload-file succeeded w = refl
  after_reload-file failed w = refl
  after_reload-file overdue w = refl

  reload_by-file :
      (argv : List Str) (w : World r)
      → file cfg.config_path (reload_by e host cfg argv w).1.acts ≡ file cfg.config_path w.acts
  unfolding reload_by observe act ◌>>=◌ report fail
  reload_by-file [] w = refl
  reload_by-file (bin ∷ args) w = elim (Bool-cases (host.has_command w.tick bin)) [
    | inl h ↦ rw h (
        ap (file cfg.config_path) (
          after_reload-file (host.run (suc w.tick) (bin ∷ args))
            (record w { tick = suc (suc w.tick); acts = w.acts ++ ran (bin ∷ args) ∷ [] }))
        ∙ file-ran cfg.config_path (bin ∷ args) w.acts)
    | inr h ↦ rw h
  ]

  -- What Sync leaves: the text that it calls last written, and what it did to get there.
  abbrev Leaves : Str → Result (Str × Result (Unit {0})) × World r → Type 0
  Leaves text run =
      (last : Str) × (outcome : Result (Unit {0})) × (run.0 ≡ ok (last, outcome))
      × (IsCurrent cfg.config_path last run.1.acts)
      × (outcome ≡ ok tt → last ≡ text)

  install-Leaves :
      (last text : Str) (w : World r)
      → IsCurrent cfg.config_path last w.acts
      → Leaves text (install e host cfg last text w)
  unfolding install ◌>>=◌ try pure report reload
  install-Leaves last text w c = elim (Bool-cases (str_eq text last)) [
    | inl h ↦ rw h (last, ok tt, refl, c, λ _. sym ((str_eq_iff text last).0 h))
    | inr h ↦ elim (write_lem text w) [
      | inl p ↦
          rw (h, p.0)
            (
              text,
              _,
              refl,
              inr (
                  reload_by-file cfg.reload_command _
                  ∙ ap (file cfg.config_path) p.1
                  ∙ file-installed cfg.config_path text w.acts),
              λ _. refl,
            )
      | inr p ↦ rw (h, p.1) (last, err p.0, refl, rw p.2 c, λ k. cc)
    ]
  ]

  Idle-read_backends : (keys : List Str) (b : Backends) → Idle (read_backends e keys b)
  unfolding read_backends hash_get
  Idle-read_backends [] b = search idle_rules
  Idle-read_backends (key ∷ keys) b = search (idle_rules, Idle-read_backends keys)

  Idle-backends : Idle (backends e)
  unfolding backends
  Idle-backends = search (idle_rules, Idle-scan_keys, Idle-read_backends)

  -- Whatever fails and whatever other processes write, if the file in place was the text last
  -- written, it still is after a Sync, which always returns; and where the Sync reports success, that
  -- text is the rendering of the backends that it read.
  pub sync-IsCurrent :
      (last : Str) (w : World r)
      → IsCurrent cfg.config_path last w.acts
      → (last' : Str) × (outcome : Result (Unit {0})) × ((sync e host cfg last w).0
          ≡ ok (last', outcome))
        × IsCurrent cfg.config_path last' (sync e host cfg last w).1.acts
        × (outcome ≡ ok tt → (b : Backends) × ((backends e w).0 ≡ ok b) × (last' ≡ render b))
  unfolding sync ◌>>=◌ try pure
  sync-IsCurrent last w c = read (backends e w).0 refl
    where
      read :
          (x : Result Backends)
          → (backends e w).0 ≡ x
          → (last' : Str) × (outcome : Result (Unit {0})) × ((sync e host cfg last w).0
              ≡ ok (last', outcome))
            × IsCurrent cfg.config_path last' (sync e host cfg last w).1.acts
            × (outcome ≡ ok tt → (b : Backends) × ((backends e w).0 ≡ ok b) × (last' ≡ render b))
      read (ok b) p =
          let (last', outcome, q, now, done) =
            install-Leaves last (render b) (backends e w).1 (rw (Idle-backends.at w) c) in
          (last', outcome, rw p q, rw p now, λ k. (b, p, done k))
      read (err cause) p = (last, err cause, rw p, rw p (rw (Idle-backends.at w) c), λ k. cc)
