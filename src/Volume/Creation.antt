-- ===== src/Volume/Creation.antt =====
-- What `Create` of daemon/mgr/volume.go leaves behind.
use pouch.Prelude.{
  ◌≡◌, refl, ap, sym, ◌∙◌, false, some, Text, str, text_eq, text_eq_refl, Dict, lookup, insert,
  lookup-insert, is_empty, if◌then◌else◌,
}
use pouch.Prelude.Task.{done, raised, ◌>>=◌}
use pouch.Volume.{Volume, VolumeContext, Driver, Host, Service, not_found}
use pouch.Volume.Core.{get_volume, create_missing, create_volume, call_volume, put_volume}
use pouch.Volume.Manager.{create, get_by_name, log_volume_event}
use pouch.Volume.Ready.{Answers, IsPlain, get_driver-some}
use pouch.Volume.References.{get_by_name-Ready, logged}

abbrev pub context : Text → Text → Dict Text → Dict Text → VolumeContext
context name driver options labels = record {
  name = name;
  driver = driver;
  options = options;
  labels = labels;
}

module _ {W : Type 0} (host : Host W) (a : Answers host) (d : Driver W) (p : IsPlain d) where
  create_missing-made :
      (id : VolumeContext) (v : Volume) (t : Service W)
      → lookup id.driver t.drivers ≡ some d
      → (d.create id t.world).0 ≡ some v
      → create_missing host id (raised not_found) t
        ≡ (done v, record t { world = (d.create id t.world).1; store = insert v.name v t.store })
  unfolding create_missing call_volume put_volume ◌>>=◌
  create_missing-made id v t k c =
      rw (get_driver-some host a d p id.driver t k, c, a.writes v.name (d.create id t.world).1) refl

  create-made :
      (name driver : Text) (options labels : Dict Text) (v : Volume) (s t : Service W)
      → is_empty driver ≡ false
      → get_volume host name s ≡ (raised not_found, t)
      → lookup driver t.drivers ≡ some d
      → (d.create (context name driver options labels) t.world).0 ≡ some v
      → create host name driver options labels s ≡ (
        done v,
        logged name (str "create") (record t {
          world = (d.create (context name driver options labels) t.world).1;
          store = insert v.name v t.store;
        }),
      )
  unfolding create create_volume log_volume_event ◌>>=◌
  create-made name driver options labels v s t e g k c =
      rw (e, g, create_missing-made (context name driver options labels) v t k c) refl

  -- For a name that neither the store nor a driver knows, and a plain driver in the table that makes the
  -- volume and writes its own name into it, `Create` succeeds with that volume, and `Get` then gives it.
  pub create-get :
      (name driver : Text) (options labels : Dict Text) (v : Volume) (s t : Service W)
      → is_empty driver ≡ false
      → get_volume host name s ≡ (raised not_found, t)
      → lookup driver t.drivers ≡ some d
      → (d.create (context name driver options labels) t.world).0 ≡ some v
      → v.name ≡ name
      → v.backend ≡ driver
      → let after = create host name driver options labels s in
        (after.0 ≡ done v) × (get_by_name host name after.1 ≡ (done v, after.1))
  create-get name driver options labels v s t e g k c n b = (
    ap (λ q. q.0) made,
    ap (λ q. get_by_name host name q.1) made ∙ read ∙ ap (λ q. (done v, q.1)) (sym made),
  )
    where
      id : VolumeContext
      id = context name driver options labels

      end : Service W
      end =
          logged name (str "create")
            (record t { world = (d.create id t.world).1; store = insert v.name v t.store })

      made : create host name driver options labels s ≡ (done v, end)
      made = create-made name driver options labels v s t e g k c

      read : get_by_name host name end ≡ (done v, end)
      read = get_by_name-Ready host a d p name v end (record {
        stored =
            lookup-insert v.name name v t.store
            ∙ ap (λ q. if q then some v else lookup name t.store)
                (ap (λ q. text_eq q name) n ∙ text_eq_refl name);
        own_name = n;
        driver = ap (λ q. lookup q t.drivers) b ∙ k;
      })
