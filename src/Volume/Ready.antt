-- ===== src/Volume/Ready.antt =====
-- Volumes of the store whose driver is in the table, and what the calls of the core do with them.
use pouch.Prelude.{
  ◌≡◌, refl, ap, ◌∙◌, Bool-cases, inl, inr, true, none, some, Text, str, text_eq, text_eq_refl,
  Dict, lookup, insert, lookup-insert, is_empty, if◌then◌else◌,
}
use pouch.Prelude.Task.{continue, done, ◌>>=◌, require}
use pouch.Volume.{Volume, option, Driver, Host, Service, get_driver, known_or_plugin, failed}
use pouch.Volume.Core.{
  put_volume, detached, call_volume, as_driver_knows, current_or_probed, get_volume,
  get_volume_driver, with_extra, attach_volume, detach_volume,
}

-- the store answers every read and write
pub record Answers {W : Type 0} (host : Host W) : Type 0 where
  pub reads : (name : Text) (w : W) → host.reads name w ≡ true
  pub writes : (name : Text) (w : W) → host.writes name w ≡ true

-- a driver like the local one: it is no Getter, and it attaches and detaches volumes as they are
pub record IsPlain {W : Type 0} (d : Driver W) : Type 0 where
  pub no_getter : d.getter ≡ none
  pub attach : Volume → W → W
  pub detach : Volume → W → W
  pub calls : d.attach_detach ≡ some (λ v w. (some v, attach v w), λ v w. (some v, detach v w))

-- the volume of a name is `v`, and `d` its driver
pub record Ready {W : Type 0} (name : Text) (v : Volume) (d : Driver W) (s : Service W)
    : Type 0 where
  pub stored : lookup name s.store ≡ some v
  pub own_name : v.name ≡ name
  pub driver : lookup v.backend s.drivers ≡ some d

module _ {W : Type 0} (host : Host W) (a : Answers host) (d : Driver W) (p : IsPlain d) where
  pub get_driver-some :
      (name : Text) (s : Service W)
      → lookup name s.drivers ≡ some d
      → get_driver host name s ≡ (done d, s)
  unfolding get_driver ◌>>=◌
  get_driver-some name s e = ap (λ o. known_or_plugin host name o s) e

  pub get_volume-Ready :
      (name : Text) (v : Volume) (s : Service W)
      → Ready name v d s
      → get_volume host name s ≡ (done v, s)
  unfolding get_volume ◌>>=◌
  get_volume-Ready name v s r =
      ap
        (λ b.
          continue (require b failed s) (λ _. current_or_probed host name (lookup name s.store)))
        (a.reads name s.world)
      ∙ ap (λ o. current_or_probed host name o s) r.stored
      ∙ ap (λ q. continue q (λ e. as_driver_knows host name v e.getter))
          (get_driver-some v.backend s r.driver)
      ∙ ap (λ o. as_driver_knows host name v o s) p.no_getter

  pub get_volume_driver-Ready :
      (name : Text) (v : Volume) (s : Service W)
      → Ready name v d s
      → get_volume_driver host name s ≡ (done (v, d), s)
  unfolding get_volume_driver ◌>>=◌
  get_volume_driver-Ready name v s r =
      rw (get_volume-Ready name v s r, get_driver-some v.backend s r.driver) refl

  -- the service with a volume put into the store after a call of its driver
  abbrev pub with_volume : Volume → W → Service W → Service W
  with_volume u w s = record s { world = w; store = insert u.name u s.store }

  pub attach_volume-Ready :
      (name : Text) (v : Volume) (options : Dict Text) (s : Service W)
      → Ready name v d s
      → attach_volume host name options s ≡ (
        done (with_extra options v),
        with_volume (with_extra options v) (p.attach (with_extra options v) s.world) s,
      )
  unfolding attach_volume call_volume put_volume ◌>>=◌
  attach_volume-Ready name v options s r =
      rw
        (
          get_volume_driver-Ready name v s r,
          p.calls,
          a.writes v.name (p.attach (with_extra options v) s.world),
        )
        refl

  unfoldable pub detach_world : Volume → W → W
  unfolding option
  detach_world u w = if is_empty (option (str "ref") u) then p.detach u w else w

  pub detach_volume-Ready :
      (name : Text) (v : Volume) (options : Dict Text) (s : Service W)
      → Ready name v d s
      → detach_volume host name options s ≡ (
        done (with_extra options v),
        with_volume (with_extra options v) (detach_world (with_extra options v) s.world) s,
      )
  unfolding detach_volume detached call_volume put_volume ◌>>=◌ detach_world
  detach_volume-Ready name v options s r =
      elim (Bool-cases (is_empty (option (str "ref") (with_extra options v)))) [
        | inl b ↦
            rw
              (
                get_volume_driver-Ready name v s r,
                p.calls,
                b,
                a.writes v.name (p.detach (with_extra options v) s.world),
              )
              refl
        | inr b ↦ rw (get_volume_driver-Ready name v s r, p.calls, b, a.writes v.name s.world) refl
      ]

  -- a volume with the same name and driver that is put into the store
  pub with_volume-Ready :
      (name : Text) (v u : Volume) (w : W) (s : Service W)
      → Ready name v d s
      → u.name ≡ v.name
      → u.backend ≡ v.backend
      → Ready name u d (with_volume u w s)
  with_volume-Ready name v u w s r n b = record {
    stored =
        lookup-insert u.name name u s.store
        ∙ ap (λ t. if t then some u else lookup name s.store)
            (ap (λ t. text_eq t name) (n ∙ r.own_name) ∙ text_eq_refl name);
    own_name = n ∙ r.own_name;
    driver = ap (λ t. lookup t s.drivers) b ∙ r.driver;
  }
