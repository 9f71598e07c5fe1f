-- ===== src/Redis/Memory.antt =====
-- A server that meets the laws of `Redis`: a function from keys to entries.
use gopher_agent_platform.Prelude.{◌+◌, refl, Option, none, some, if◌then◌else◌}
use gopher_agent_platform.Text.{Text, text_eq}
use gopher_agent_platform.Redis.{
  Redis, Entry, str, num, counted, ttl_of, with_ttl, without_ttl, aged,
}

abbrev Keys : Type 0
Keys = Text → Option Entry

abbrev update : Keys → Text → Option Entry → Keys
update s k e j = if text_eq k j then e else s j

abbrev pub memory : Redis
memory = record {
  State = Keys;
  entry = λ s k. s k;
  set_px = λ s k v t. update s k (some (record { value = str v; ttl = some t }));
  set = λ s k v. update s k (some (record { value = str v; ttl = none }));
  persist = λ s k. update s k (without_ttl (s k));
  del = λ s k. update s k none;
  incr = λ s k. update s k (some (record { value = num (counted (s k) + 1); ttl = ttl_of (s k) }));
  pexpire = λ s k t. update s k (with_ttl t (s k));
  elapse = λ s d j. aged d (s j);
  entry-set_px = λ s k v t j h. refl;
  entry-set = λ s k v j. refl;
  entry-persist = λ s k j. refl;
  entry-del = λ s k j. refl;
  entry-incr = λ s k j. refl;
  entry-pexpire = λ s k t j. refl;
  entry-elapse = λ s d j. refl;
}

abbrev pub no_keys : Text → Option Entry
no_keys k = none
