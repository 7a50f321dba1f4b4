-- ===== src/Quota/Enforce/Rootfs.antt =====
-- What a call of storage/quota has done when it succeeds.
use pouch.Prelude.{
  ℕ, ◌≡◌, ap, sym, ◌∙◌, Bool, true, false, some, List, [], ◌∷◌, Text, str, ◌==◌, arith,
  if◌then◌else◌,
}
use pouch.Prelude.Task.{done, pure, bind-done, require-done, expect-done}
use pouch.Prelude.Decimal.{format_uint}
use pouch.Quota.Mounts.{Kind, grpquota, prjquota}
use pouch.Quota.Apply.{Host, Site, failed, Action, run, run_or_fail, set_quota}
use pouch.Quota.Enforce.{
  MountInfo, enforce_quota, driver_set_disk_quota, set_dirs, set_rootfs_disk_quota,
}

abbrev pub setquota : Kind → ℕ → ℕ → Text → List Text
setquota kind id limit point =
    str "setquota"
    ∷ elim kind [ prjquota ↦ str "-P" | grpquota ↦ str "-g" ]
    ∷ format_uint id
    ∷ str "0"
    ∷ format_uint limit
    ∷ str "0"
    ∷ str "0"
    ∷ point
    ∷ []

module _ {W : Type 0} where
  -- the host with the list of the commands that were run on it, the last one first
  abbrev pub recorded : Host W → Host (List (List Text) × W)
  recorded host = record {
    run = λ args (log, w). ((host.run args w).0, (args ∷ log, (host.run args w).1));
    mounts = λ (log, w). host.mounts w;
    stat_dev = λ path (log, w). host.stat_dev path w;
    lstat = λ path (log, w). host.lstat path w;
    statfs = λ path (log, w). host.statfs path w;
    exists = λ path (log, w). host.exists path w;
    write_file = λ path bytes (log, w).
        ((host.write_file path bytes w).0, (log, (host.write_file path bytes w).1));
    remove = λ path (log, w). (log, host.remove path w);
    walk = λ path (log, w). host.walk path w;
    to_kilobytes = host.to_kilobytes;
  }

  set_quota-recorded :
      (host : Host W) (k : Kind) (id n : ℕ) (p : Text) (s t : Site (List (List Text) × W))
      (u : Unit {0})
      → set_quota (recorded host) k id n p s ≡ (done u, t)
      → (log : List (List Text)) × (t.world.0 ≡ setquota k id n p ∷ log)
  unfolding set_quota run_or_fail run
  set_quota-recorded host k id n p s t u e =
      let (r, v, (a, b)) = bind-done _ _ s u t e in
      let (_, h) = require-done _ failed v t u b in
      (s.world.0, ap (λ x. x.world.0) (sym h) ∙ ap (λ q. q.1.world.0) (sym a))

  -- When `SetDiskQuota` of a driver succeeds, the last command it has run is `setquota` of the mount point
  -- that `EnforceQuota` found, with an ID that is not 0 and the size in kilobytes as the limit.
  pub driver_set_disk_quota-last :
      (host : Host W) (k : Kind) (p size : Text) (qid : ℕ) (s t : Site (List (List Text) × W))
      (u : Unit {0})
      → driver_set_disk_quota (recorded host) k p size qid s ≡ (done u, t)
      → (id : ℕ) × (limit : ℕ) × (info : MountInfo) × (s1 : Site (List (List Text) × W))
        × (log : List (List Text)) × ((enforce_quota (recorded host) k p s ≡ (done info, s1))
            × ((id == 0) ≡ false)
            × (host.to_kilobytes size ≡ some limit)
            × (t.world.0 ≡ setquota k id limit info.mount_point ∷ log))
  unfolding driver_set_disk_quota
  driver_set_disk_quota-last host k p size qid s t u e =
      let (info, s1, (h1, e1)) = bind-done _ _ s u t e in
      let (_, s2, (_, e2)) = bind-done _ _ s1 u t e1 in
      let (limit, s3, (h3, e3)) = bind-done _ _ s2 u t e2 in
      let (_, s4, (_, e4)) = bind-done _ _ s3 u t e3 in
      let (id, s5, (_, e5)) = bind-done _ _ s4 u t e4 in
      let (v, s6, (h6, e6)) = bind-done _ _ s5 u t e5 in
      let (log, last) = set_quota-recorded host k id limit info.mount_point s6 t u e6 in
      let (small, _) = expect-done _ failed s2 s3 limit h3 in
      let (nonzero, _) = require-done _ failed s5 s6 v h6 in
      (id, limit, info, s1, log, (h1, ground (arith, nonzero), small, last))

  chosen-id :
      (b : Bool) (a : Action W ℕ) (qid : ℕ) (s t : Site W) (x : ℕ)
      → b ≡ false
      → (if b then a else pure qid) s ≡ (done x, t)
      → x ≡ qid
  unfolding pure
  chosen-id true a qid s t x n h = cc
  chosen-id false a qid s t x n h = ground (arith, h)

  set_dirs-id :
      (host : Host W) (k : Kind) (size : Text) (b : Bool) (ps : List Text) (qid id : ℕ)
      (s t : Site W)
      → (qid == 0) ≡ false
      → set_dirs host k size b ps qid s ≡ (done id, t)
      → id ≡ qid
  unfolding set_dirs pure
  set_dirs-id host k size b [] qid id s t n e = ground (arith, e)
  set_dirs-id host k size b (p ∷ ps) qid id s t n e =
      let (x, s1, (h, e1)) = bind-done _ _ s id t e in
      let (_, s2, (_, e2)) = bind-done _ _ s1 id t e1 in
      let (_, s3, (_, e3)) = bind-done _ _ s2 id t e2 in
      let same : x ≡ qid = chosen-id (qid == 0) _ qid s s1 x n h in
      set_dirs-id host k size b ps x id s3 t (ground (arith, same, n)) e3 ∙ same

  -- Given an ID that is not 0, `SetRootfsDiskQuota` gives that ID if it succeeds.
  pub set_rootfs_disk_quota-id :
      (host : Host W) (k : Kind) (basefs size : Text) (qid id : ℕ) (update : Bool) (s t : Site W)
      → (qid == 0) ≡ false
      → set_rootfs_disk_quota host k basefs size qid update s ≡ (done id, t)
      → id ≡ qid
  unfolding set_rootfs_disk_quota
  set_rootfs_disk_quota-id host k basefs size qid id update s t n e =
      let (_, s1, (_, e1)) = bind-done _ _ s id t e in
      let (o, s2, (_, e2)) = bind-done _ _ s1 id t e1 in
      set_dirs-id host k size update _ qid id s2 t n e2
