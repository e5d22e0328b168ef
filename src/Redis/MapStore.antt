-- ===== src/Redis/MapStore.antt =====
-- A store as a function from keys: an instance of the interface.
use developer_platform_backe.Prelude.{◌+◌, ◌*◌, Option, none, some, refl, if◌then◌else◌}
use developer_platform_backe.Redis.Interface.{
  Key, same_key, Entry, live, value_of, bumped, with_deadline, Redis,
}

abbrev pub map_redis : Redis
map_redis = record {
  Store = Key → Option Entry;
  entry = λ k s. s k;
  get = λ now k s. value_of (live now (s k));
  incr = λ now k s. (
    (bumped (live now (s k))).value,
    λ j. if same_key j k then some (bumped (live now (s k))) else s j,
  );
  expire =
      λ now k n s j. if same_key j k then with_deadline (now + n * 1000) (live now (s k)) else s j;
  set_ex = λ now k v n s j.
      if same_key j k then some (record { value = v; deadline = some (now + n * 1000) }) else s j;
  del = λ k s j. if same_key j k then none else s j;
  get_lem = λ now k s. refl;
  incr_value = λ now k s. refl;
  entry-incr = λ now j k s. refl;
  entry-expire = λ now j k n s. refl;
  entry-set_ex = λ now j k v n s. refl;
  entry-del = λ j k s. refl;
}
