-- ===== src/Config/Transaction/Looks.antt =====
-- The queries of a transaction, which change neither the runtime nor the link.
use rigos.Base.{
  ℕ, String, ◌≡◌, refl, ◌∙◌, ap, subst, Bool, true, false, none, some, if◌then◌else◌, List,
  Bool-cases, inl, inr,
}
use rigos.Config.Error.{ConfigError}
use rigos.Config.Store.{
  FilePath, path_eq, World, Ran, done, failed, Io, then_do, map_err, fail_when, pure, ◌>>=◌, left,
  link_of, get, file, exists, read_link, write_new, create_new, write_all, write_failed, to_write,
  put,
}
use rigos.Config.Store.Laws.{call-runtime}
use rigos.Config.Store.Keeps.{left-caught, Keeps, Keeps-write_new}
use rigos.Config.Transaction.{pending, current, in_world, on_runtime, read_boot_id, snapshot_now}
use rigos.Config.Stored.{RuntimeSnapshot, Stored}
use rigos.Config.Transaction.Runtime.{RuntimeOps, Lawful}

module _ {R : Type 0} {ops : RuntimeOps R} (laws : Lawful ops) where
  -- The link `current` and what is seen of the runtime are as before.
  pub record Untouched (w end : World Stored R) : Type 0 where
    pub link : get current end.disk ≡ get current w.disk
    pub zone : laws.zone end.runtime ≡ laws.zone w.runtime
    pub enabled : laws.enabled end.runtime ≡ laws.enabled w.runtime
    pub active : laws.active end.runtime ≡ laws.active w.runtime

  -- The snapshot holds the boot, the link and the state of the runtime. The link is looked up by
  -- the system call `at`; where that fails, the snapshot has none.
  pub record IsSnapshotOf (faults : ℕ → Bool) (boot_id : String) (at : ℕ)
      (snapshot : RuntimeSnapshot) (w : World Stored R) : Type 0 where
    pub boot : snapshot.boot_id ≡ boot_id
    pub previous :
        snapshot.previous_revision ≡ (if faults at then none else link_of (get current w.disk))
    pub zone : snapshot.timezone ≡ laws.zone w.runtime
    pub enabled : snapshot.miner_enabled ≡ laws.enabled w.runtime
    pub active : snapshot.miner_active ≡ laws.active w.runtime

  pub same : (w : World Stored R) → Untouched w w
  same w = record { link = refl; zone = refl; enabled = refl; active = refl }

  pub after : (w mid end : World Stored R) → Untouched w mid → Untouched mid end → Untouched w end
  after w mid end a b = record {
    link = b.link ∙ a.link;
    zone = b.zone ∙ a.zone;
    enabled = b.enabled ∙ a.enabled;
    active = b.active ∙ a.active;
  }

  -- A chain that touches neither, whether it fails or not.
  pub record Looks {A : Type 0} (m : Io (World Stored R) A) : Type 0 where
    pub holds : (w : World Stored R) → Untouched w (left (m w))

  pub looks_done :
      {A : Type 0} (m : Io (World Stored R) A) (w end : World Stored R) {a : A}
      → Looks m
      → m w ≡ done a end
      → Untouched w end
  looks_done m w end h e =
      subst (λ (ran : Ran (World Stored R) _). Untouched w (left ran)) e (Looks.holds h w)

  pub looks_failed :
      {A : Type 0} (m : Io (World Stored R) A) (w end : World Stored R) {e : ConfigError}
      → Looks m
      → m w ≡ failed e end
      → Untouched w end
  looks_failed m w end h e =
      subst (λ (ran : Ran (World Stored R) _). Untouched w (left ran)) e (Looks.holds h w)

  then_do-looks :
      {A B : Type 0} (w : World Stored R) (ran : Ran (World Stored R) A)
      (f : A → Io (World Stored R) B)
      → Untouched w (left ran)
      → ((a : A) → Looks (f a))
      → Untouched w (left (then_do ran f))
  then_do-looks w (done a mid) f h k = after w mid _ h (Looks.holds (k a) mid)
  then_do-looks w (failed e mid) f h k = h

  Looks-bind :
      {A B : Type 0} (m : Io (World Stored R) A) (f : A → Io (World Stored R) B)
      → Looks m
      → ((a : A) → Looks (f a))
      → Looks (m >>= f)
  Looks-bind m f h k = record { holds = λ w. then_do-looks w (m w) f (Looks.holds h w) k }

  Looks-pure : {A : Type 0} (a : A) → Looks (pure {W = World Stored R} a)
  Looks-pure a = record { holds = same }

  pub Looks-fail_when : (b : Bool) (e : ConfigError) → Looks (fail_when b e)
  Looks-fail_when true e = record { holds = same }
  Looks-fail_when false e = record { holds = same }

  seen :
      {A : Type 0} (w : World Stored R) (ran : Ran R A)
      → (laws.zone (left ran) ≡ laws.zone w.runtime)
        × (laws.enabled (left ran) ≡ laws.enabled w.runtime)
        × (laws.active (left ran) ≡ laws.active w.runtime)
      → Untouched w (left (in_world w ran))
  seen w (done a r) h = record { link = refl; zone = h.0; enabled = h.1; active = h.2 }
  seen w (failed e r) h = record { link = refl; zone = h.0; enabled = h.1; active = h.2 }

  pub Looks-timezone : Looks (on_runtime ops.timezone)
  Looks-timezone = record {
    holds = λ w. seen w (ops.timezone w.runtime) (laws.timezone_kept w.runtime);
  }

  pub Looks-enabled : Looks (on_runtime ops.miner_enabled)
  Looks-enabled = record {
    holds = λ w. seen w (ops.miner_enabled w.runtime) (laws.miner_enabled_kept w.runtime);
  }

  pub Looks-active : Looks (on_runtime ops.miner_active)
  Looks-active = record {
    holds = λ w. seen w (ops.miner_active w.runtime) (laws.miner_active_kept w.runtime);
  }

module _ {R : Type 0} (faults : ℕ → Bool) (boot_id : String) (fresh : ℕ → String)
    {ops : RuntimeOps R} (words : List String) (laws : Lawful ops) where
  pub Looks-exists : Looks laws (exists faults pending)
  unfolding exists
  Looks-exists = record {
    holds = λ w. record { link = refl; zone = refl; enabled = refl; active = refl };
  }

  pub Looks-read_link : Looks laws (read_link faults current)
  unfolding read_link
  Looks-read_link = record {
    holds = λ w. record { link = refl; zone = refl; enabled = refl; active = refl };
  }

  pub Looks-boot_id : Looks laws (read_boot_id faults boot_id fresh ops words)
  Looks-boot_id = record {
    holds = λ w. elim (Bool-cases (faults w.clock)) [
      | inl e ↦ rw e (record { link = refl; zone = refl; enabled = refl; active = refl })
      | inr e ↦ rw e (record { link = refl; zone = refl; enabled = refl; active = refl })
    ];
  }

  pub Looks-incomplete :
      (e : ConfigError) → Looks laws (exists faults pending >>= λ there. fail_when there e)
  Looks-incomplete e =
      Looks-bind laws (exists faults pending) _ Looks-exists (λ b. Looks-fail_when laws b e)

  pub Looks-snapshot_now : Looks laws (snapshot_now faults boot_id fresh ops words)
  unfolding snapshot_now
  Looks-snapshot_now =
      Looks-bind laws (read_boot_id faults boot_id fresh ops words) _ Looks-boot_id (λ id.
        Looks-bind laws (read_link faults current) _ Looks-read_link (λ previous.
          Looks-bind laws (on_runtime ops.timezone) _ (Looks-timezone laws) (λ zone.
            Looks-bind laws (on_runtime ops.miner_enabled) _ (Looks-enabled laws) (λ enabled.
              Looks-bind laws (on_runtime ops.miner_active) _ (Looks-active laws)
                (λ active. Looks-pure laws _)))))

  written :
      (p : FilePath) (c : Stored) (w : World Stored R)
      → (left (write_new faults p c w)).runtime ≡ w.runtime
  unfolding write_new create_new write_all
  written p c w =
      then_runtime (create_new faults p w)
      ∙ call-runtime faults (to_write (get p w.disk) p w.disk) w
    where
      then_runtime :
          (ran : Ran (World Stored R) (Unit {0}))
          → (left (then_do ran (λ _. map_err write_failed (write_all faults p c)))).runtime
            ≡ (left ran).runtime
      then_runtime (done u mid) =
          ap (λ (x : World Stored R). x.runtime)
            (left-caught write_failed (write_all faults p c mid))
          ∙ call-runtime faults (some (put p (file c) mid.disk)) mid
      then_runtime (failed e mid) = refl

  pub Looks-write_new : (c : Stored) → Looks laws (write_new faults pending c)
  unfolding path_eq
  Looks-write_new c = record {
    holds = λ w. record {
      link = Keeps.holds (Keeps-write_new current faults pending refl c) w;
      zone = ap laws.zone (written pending c w);
      enabled = ap laws.enabled (written pending c w);
      active = ap laws.active (written pending c w);
    };
  }
