-- ===== src/Config/Transaction/Recover.antt =====
-- recover_pending: the rollback after a crash, from the pending file.
use rigos.Base.{
  ℕ, String, ◌≡◌, refl, sym, ◌∙◌, ap, Bool, true, false, Option, none, some, List, Bool-cases, inl,
  inr, ◌⊎◌,
}
use rigos.Config.Error.{ConfigError}
use rigos.Config.Store.{
  FilePath, Entry, file, torn, World, Ran, done, failed, Io, left, get, is_file, is_plain, content,
  read_file, tick, link, dir,
}
use rigos.Config.Store.Laws.{
  then_do-eq-done, then_do-eq-failed, done_injective, remove_file-eq-done, remove_file-eq-failed,
  get-remove,
}
use rigos.Config.Store.Keeps.{Keeps, Keeps-bind, Keeps-pure, Keeps-throw}
use rigos.Config.Transaction.{
  pending, rollback_transaction, recover_file, recover_pending, as_snapshot, read_snapshot,
}
use rigos.Config.Stored.{
  RuntimeSnapshot, Stored, runtime_snapshot, json, sheet, identity, provenance,
}
use rigos.Config.Transaction.Runtime.{RuntimeOps, Lawful}
use rigos.Config.Transaction.Rollback.{Restored, rollback_transaction-Restored}
use rigos.Config.Transaction.Atomic.{removal-Restored}
use rigos.Config.Transaction.Pending.{rollback-Keeps}

through :
    {R A : Type 0} (m : Io (World Stored R) A) (w end : World Stored R) (e : ConfigError)
    → Keeps pending m
    → m w ≡ failed e end
    → get pending end.disk ≡ get pending w.disk
through m w end e k h =
    ap (λ (ran : Ran (World Stored _) _). get pending (left ran).disk) (sym h) ∙ Keeps.holds k w

through_done :
    {R A : Type 0} (m : Io (World Stored R) A) (w end : World Stored R) (a : A)
    → Keeps pending m
    → m w ≡ done a end
    → get pending end.disk ≡ get pending w.disk
through_done m w end a k h =
    ap (λ (ran : Ran (World Stored _) _). get pending (left ran).disk) (sym h) ∙ Keeps.holds k w

module _ {R : Type 0} (faults : ℕ → Bool) where
  found :
      (o : Option (Entry Stored)) (w end : World Stored R) (s : Stored)
      → content faults o w ≡ done s end
      → (o ≡ some (file s)) × (end ≡ w)
  found none w end s g = cc
  found (some (file c)) w end s g =
      let (a, b) = done_injective g in (ap (λ x. some (file x)) a, sym b)
  found (some torn) w end s g = cc
  found (some (link t)) w end s g = cc
  found (some dir) w end s g = cc

  read_file-eq-done :
      (p : FilePath) (w end : World Stored R) (s : Stored)
      → read_file faults p w ≡ done s end
      → (get p w.disk ≡ some (file s)) × (end ≡ tick faults w)
  unfolding read_file
  read_file-eq-done p w end s h = elim (Bool-cases (faults w.clock)) [
    | inl e ↦ absurd (cc (rw e at h))
    | inr e ↦ found (get p w.disk) (tick faults w) end s (rw e at h)
  ]

  content-disk :
      (o : Option (Entry Stored)) (w : World Stored R) → (left (content faults o w)).disk ≡ w.disk
  content-disk none w = refl
  content-disk (some (file c)) w = refl
  content-disk (some torn) w = refl
  content-disk (some (link t)) w = refl
  content-disk (some dir) w = refl

  read_file-Keeps : Keeps {C = Stored} {R = R} pending (read_file faults pending)
  unfolding read_file
  read_file-Keeps = record {
    holds = λ w. elim (Bool-cases (faults w.clock)) [
      | inl e ↦ rw e
      | inr e ↦ rw e (ap (get pending) (content-disk (get pending w.disk) (tick faults w)))
    ];
  }

module _ {R : Type 0} (faults : ℕ → Bool) (boot_id : String) (fresh : ℕ → String)
    (ops : RuntimeOps R) (words : List String) where
  decoded :
      (c : Stored) (w end : World Stored R) (s : RuntimeSnapshot)
      → as_snapshot faults boot_id fresh ops words c w ≡ done s end
      → (c ≡ runtime_snapshot s) × (end ≡ w)
  decoded (runtime_snapshot t) w end s h =
      let (a, b) = done_injective h in (ap runtime_snapshot a, sym b)
  decoded (json v) w end s h = cc
  decoded (sheet f) w end s h = cc
  decoded (identity i) w end s h = cc
  decoded (provenance p) w end s h = cc

  read_snapshot-eq-done :
      (w end : World Stored R) (s : RuntimeSnapshot)
      → read_snapshot faults boot_id fresh ops words w ≡ done s end
      → (get pending w.disk ≡ some (file (runtime_snapshot s))) × (end ≡ tick faults w)
  unfolding read_snapshot
  read_snapshot-eq-done w end s h =
      let (c, mid, first, second) = then_do-eq-done (read_file faults pending w) _ h in
      let (at, e) = read_file-eq-done faults pending w mid c first in
      let (is, same) = decoded c mid end s second in (at ∙ ap (λ x. some (file x)) is, same ∙ e)

  decode-Keeps : (c : Stored) → Keeps {R = R} pending (as_snapshot faults boot_id fresh ops words c)
  decode-Keeps (runtime_snapshot t) = Keeps-pure pending t
  decode-Keeps (json v) = Keeps-throw pending _
  decode-Keeps (sheet f) = Keeps-throw pending _
  decode-Keeps (identity i) = Keeps-throw pending _
  decode-Keeps (provenance p) = Keeps-throw pending _

  read_snapshot-Keeps : Keeps pending (read_snapshot faults boot_id fresh ops words)
  unfolding read_snapshot
  read_snapshot-Keeps =
      Keeps-bind pending (read_file faults pending) _ (read_file-Keeps faults) decode-Keeps

-- How a recovery succeeds: nothing to recover is seen, and nothing changes; or the snapshot of the
-- pending file is restored and the file is gone.
pub data Recovered {R : Type 0} {ops : RuntimeOps R} (laws : Lawful ops) (faults : ℕ → Bool)
    (boot_id : String) (w end : World Stored R) : Type 0 where
  nothing :
      (is_plain (get pending w.disk) ≡ false) ⊎ (faults w.clock ≡ true)
      → end.disk ≡ w.disk
      → end.runtime ≡ w.runtime
      → Recovered laws faults boot_id w end
  restored :
      (s : RuntimeSnapshot)
      → get pending w.disk ≡ some (file (runtime_snapshot s))
      → Restored laws boot_id s end
      → get pending end.disk ≡ none
      → Recovered laws faults boot_id w end

module _ {R : Type 0} (faults : ℕ → Bool) (boot_id : String) (fresh : ℕ → String)
    {ops : RuntimeOps R} (words : List String) (laws : Lawful ops) where
  module _ (w : World Stored R) where
    seen :
        (b : Bool) (mid : World Stored R)
        → is_file faults pending w ≡ done b mid
        → (mid ≡ tick faults w)
          × ((b ≡ false) → (is_plain (get pending w.disk) ≡ false) ⊎ (faults w.clock ≡ true))
    unfolding is_file
    seen b mid h =
        let (x, y) = done_injective h in
        (
          sym y,
          λ none_seen. elim (Bool-cases (faults w.clock)) [
            | inl e ↦ inr e
            | inr e ↦ inl (rw e at (x ∙ none_seen))
          ],
        )

    recover :
        (b : Bool) (mid end : World Stored R)
        → is_file faults pending w ≡ done b mid
        → recover_file faults boot_id fresh ops words b mid ≡ done tt end
        → Recovered laws faults boot_id w end
    unfolding recover_file
    recover false mid end r h =
        let (e, why) = seen false mid r in
        let same : end ≡ tick faults w = sym (done_injective h).1 ∙ e in
        nothing (why refl) (ap (λ (x : World Stored R). x.disk) same)
          (ap (λ (x : World Stored R). x.runtime) same)
    recover true mid end r h =
        let e = (seen true mid r).0 in
        let (s, w1, r1, h1) =
          then_do-eq-done (read_snapshot faults boot_id fresh ops words mid) _ h in
        let (u, w2, r2, h2) =
          then_do-eq-done (rollback_transaction faults boot_id fresh ops words s w1) _ h1 in
        let (at, e1) = read_snapshot-eq-done faults boot_id fresh ops words mid w1 s r1 in
        let back = rollback_transaction-Restored faults boot_id fresh ops words laws s w1 w2 r2 in
        let gone = remove_file-eq-done faults pending w2 end h2 in
        restored s (ap (λ (x : World Stored R). get pending x.disk) (sym e) ∙ at)
          (removal-Restored faults boot_id fresh words laws s w2 end (sym (ap left h2)) back)
          (ap (λ (x : World Stored R). get pending x.disk) gone ∙ get-remove pending w2.disk)

  -- A recovery that succeeds has found no pending file, and changed nothing; or it has restored the
  -- snapshot of the pending file and removed the file. A file that cannot be looked at counts as
  -- none.
  pub recover_pending-Recovered :
      (w end : World Stored R)
      → recover_pending faults boot_id fresh ops words w ≡ done tt end
      → Recovered laws faults boot_id w end
  unfolding recover_pending
  recover_pending-Recovered w end h =
      let (b, mid, r, h1) = then_do-eq-done (is_file faults pending w) _ h in
      recover w b mid end r h1

  recover_failed :
      (b : Bool) (w end : World Stored R) (e : ConfigError)
      → recover_file faults boot_id fresh ops words b w ≡ failed e end
      → get pending end.disk ≡ get pending w.disk
  unfolding recover_file
  recover_failed false w end e h = cc
  recover_failed true w end e h =
      elim (then_do-eq-failed (read_snapshot faults boot_id fresh ops words w) _ h) [
        | inl g ↦
            through (read_snapshot faults boot_id fresh ops words) w end e
              (read_snapshot-Keeps faults boot_id fresh ops words) g
        | inr (s, w1, r1, h1) ↦
            let kept1 =
              through_done (read_snapshot faults boot_id fresh ops words) w w1 s
                (read_snapshot-Keeps faults boot_id fresh ops words) r1 in
            elim (then_do-eq-failed (rollback_transaction faults boot_id fresh ops words s w1) _
              h1) [
                | inl g ↦
                    through (rollback_transaction faults boot_id fresh ops words s) w1 end e
                      (rollback-Keeps faults boot_id fresh ops words s) g
                    ∙ kept1
                | inr (u, w2, r2, h2) ↦
                    ap (get pending) (remove_file-eq-failed faults pending w2 end e h2)
                    ∙ through_done (rollback_transaction faults boot_id fresh ops words s) w1 w2 u
                        (rollback-Keeps faults boot_id fresh ops words s) r2
                    ∙ kept1
              ]
      ]

  -- A recovery that fails leaves the pending file as it was, so that it can be tried again.
  pub recover_pending-keeps :
      (w end : World Stored R) (e : ConfigError)
      → recover_pending faults boot_id fresh ops words w ≡ failed e end
      → get pending end.disk ≡ get pending w.disk
  unfolding recover_pending is_file
  recover_pending-keeps w end e h = recover_failed _ (tick faults w) end e h
