-- ===== src/Volume/Manager.antt =====
-- daemon/mgr/volume.go: the volumes with the containers that refer to them.
use pouch.Prelude.{
  Option, none, some, List, [], ◌∷◌, ◌++◌, Text, str, text_eq, Dict, lookup, insert, is_empty,
  split, join, contains_text, if◌then◌else◌,
}
use pouch.Prelude.Task.{Outcome, done, raised, pure, raise, get, put, require, attempt, ◌>>=◌, ◌>>◌}
use pouch.Volume.{
  Volume, option, Host, Err, not_found, in_use, driver_not_found, failed, existed, Action,
}
use pouch.Volume.Core.{
  get_volume, create_volume, remove_volume, volume_path, attach_volume, detach_volume,
}

-- `utils.StringSliceDelete`
unfoldable pub string_slice_delete : List Text → Text → List Text
unfolding text_eq
string_slice_delete [] del = []
string_slice_delete (x ∷ xs) del =
    let rest = string_slice_delete xs del in if text_eq x del then rest else x ∷ rest

-- what becomes of the option "ref" of `Attach`, given the references of the volume: the container alone
-- if there are none, the container after the others if it is not among them, and else what the caller
-- gave, the container alone
unfoldable pub attach_options : Text → Text → Dict Text → Dict Text
unfolding contains_text
attach_options ref cid options =
    if is_empty ref
    then insert (str "ref") cid options
    else if contains_text cid ref
    then options
    else insert (str "ref") (ref ++ 44 ∷ cid) options

-- what becomes of the option "ref" of `Detach` for a container that the references mention
unfoldable pub detach_options : Text → Text → Dict Text → Dict Text
unfolding split join string_slice_delete
detach_options ref cid options =
    if is_empty ref
    then options
    else insert (str "ref") (join 44 (string_slice_delete (split 44 ref) cid)) options

abbrev pub given : Option Text → Text
given none = []
given (some cid) = cid

-- an error whose text says "not found" becomes `not_found`
unfoldable pub as_not_found : Err → Err
as_not_found not_found = not_found
as_not_found driver_not_found = not_found
as_not_found in_use = in_use
as_not_found failed = failed
as_not_found (existed v) = existed v

module _ {W : Type 0} (host : Host W) where
  unfoldable pub log_volume_event : Text → Text → Action W (Unit {0})
  log_volume_event name event = do s ← get; put (record s { events = (name, event) ∷ s.events })

  abbrev pub or_not_found : {A : Type 0} → Outcome Err A → Action W A
  or_not_found (done a) = pure a
  or_not_found (raised e) = raise (as_not_found e)

  abbrev pub or_failed : {A : Type 0} → Outcome Err A → Action W A
  or_failed (done a) = pure a
  or_failed (raised e) = raise failed

  abbrev pub created : Text → Outcome Err Volume → Action W Volume
  created name (done v) = log_volume_event name (str "create") >> pure v
  created name (raised (existed v)) = pure v
  created name (raised not_found) = raise not_found
  created name (raised in_use) = raise in_use
  created name (raised driver_not_found) = raise driver_not_found
  created name (raised failed) = raise failed

  -- `Create`
  unfoldable pub create : Text → Text → Dict Text → Dict Text → Action W Volume
  create name driver options labels =
      attempt (
        create_volume host (record {
          name = name;
          driver = if is_empty driver then str "local" else driver;
          options = options;
          labels = labels;
        }))
      >>= created name

  -- `Get`
  unfoldable pub get_by_name : Text → Action W Volume
  get_by_name name = attempt (get_volume host name) >>= or_not_found

  -- `Remove`
  unfoldable pub remove : Text → Action W (Unit {0})
  unfolding option
  remove name = do
    v ← get_by_name name
    require (is_empty (option (str "ref") v)) in_use
    removed ← attempt (remove_volume host name)
    or_not_found removed
    log_volume_event name (str "destroy")

  -- `Path`
  unfoldable pub path : Text → Action W Text
  path name = volume_path host name

  -- the first half of `Attach`, up to the call of the core: the options that it will pass
  unfoldable pub attach_begin : Text → Dict Text → Action W (Dict Text)
  unfolding option attach_options
  attach_begin name options = do
    found ← attempt (get_by_name name)
    v ← or_failed found
    log_volume_event name (str "attach")
    pure (
        let cid = given (lookup (str "ref") options) in
        if is_empty cid then options else attach_options (option (str "ref") v) cid options)

  -- `Attach`
  unfoldable pub attach : Text → Dict Text → Action W Volume
  attach name options = do merged ← attach_begin name options; attach_volume host name merged

  unfoldable pub log_and_detach : Text → Dict Text → Action W Volume
  log_and_detach name options =
      log_volume_event name (str "detach") >> detach_volume host name options

  -- `Detach` after it has found the volume; a container that the references do not mention is left at that
  unfoldable pub detach_found : Text → Dict Text → Volume → Action W Volume
  unfolding option detach_options contains_text
  detach_found name options v =
      let cid = given (lookup (str "ref") options) in
      let ref = option (str "ref") v in
      if is_empty cid
      then log_and_detach name options
      else if contains_text cid ref
      then log_and_detach name (detach_options ref cid options)
      else pure v

  -- `Detach`
  unfoldable pub detach : Text → Dict Text → Action W Volume
  detach name options = get_by_name name >>= detach_found name options
