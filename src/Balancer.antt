-- ===== src/Balancer.antt =====
-- app/load_balancer.py: `LeastLoadedLoadBalancer`, and the instance records of app/interfaces.py.
-- Each method that holds the lock is one function; the clock's readings are its arguments, and so
-- is the value that `capacity_hint()` returns (`none`: no hint was configured).
pub mod Pool
pub mod Select
mod Sticky
pub mod Release
mod State
mod Health
mod Tests
use adaptive_admission_contr.Base.{
  ℕ, suc, ◌+◌, ◌-◌, Bool, true, false, not, ◌&&◌, ◌||◌, if◌then◌else◌, ltb, leb, eqb, Option, none,
  some, List, [], ◌∷◌, ◌++◌, map, length, filter, any, or_else, Text, ◌==◌, Dict, lookup, insert,
  delete, from_keys, keys, get_or, codes,
}
use adaptive_admission_contr.Base.Float.{Float}

-- The fields of `urllib.parse.urlsplit(url)` that are read; the parser is not modelled.
pub record SplitUrl : Type 0 where
  pub scheme : Text
  pub hostname : Text
  pub port : Option ℕ

pub record InstanceStatus : Type 0 where
  pub url : Text
  pub is_healthy : Bool
  pub in_flight : ℕ
  pub sticky_count : ℕ
  pub is_backup : Bool

pub contains : Text → List Text → Bool
contains u [] = false
contains u (x ∷ xs) = x == u || contains u xs

-- `parts.port or default_port`: port 0 counts as absent.
port_or : ℕ → Option ℕ → ℕ
port_or default_port none = default_port
port_or default_port (some p) = if eqb p 0 then default_port else p

pub parse_hostport : SplitUrl → Text × ℕ
unfolding port_or
parse_hostport parts =
    (parts.hostname, port_or (if parts.scheme == codes "https" then 443 else 80) parts.port)

hostports_of : (Text → SplitUrl) → List Text → Dict (Text × ℕ) → Dict (Text × ℕ)
hostports_of urlsplit [] d = d
hostports_of urlsplit (u ∷ us) d =
    hostports_of urlsplit us (insert u (parse_hostport (urlsplit u)) d)

-- `min(candidates, key=candidates.get)`: the first of the least; it raises on no candidate.
pub min_from : Text × ℕ → Dict ℕ → Text × ℕ
min_from best [] = best
min_from best (e ∷ d) = min_from (if ltb e.1 best.1 then e else best) d

pub least_loaded : Dict ℕ → Option Text
unfolding min_from
least_loaded [] = none
least_loaded (e ∷ d) = some (min_from e d).0

pub evict_at : (share : ℕ) → Text → Dict ℕ → Bool
evict_at share pinned candidates =
    if ltb (get_or 0 (lookup pinned candidates)) share
    then false
    else any (λ e. not (e.0 == pinned) && ltb e.1 share) candidates

pub is_candidate : Text → Dict ℕ → Bool
unfolding lookup
is_candidate url d = elim (lookup url d) [ none ↦ false | some n ↦ true ]

module _ ⦃fl : Float⦄ where
  open fl use {F, lt, minus, over, of_ℕ, ceil}

  pub record Balancer : Type 0 where
    pub backup_urls : List Text
    pub in_flight : Dict ℕ
    pub healthy : Dict Bool
    pub marked_down_since : Dict F
    pub hostports : Dict (Text × ℕ)
    pub sticky_enabled : Bool
    pub sticky_ttl_seconds : F
    pub sticky : Dict (Text × F)

  unfoldable pub init :
      (Text → SplitUrl) → (urls backups : List Text) → (sticky_enabled : Bool) → F → Balancer
  unfolding from_keys hostports_of parse_hostport insert
  init urlsplit urls backups enabled ttl = record {
    backup_urls = backups;
    in_flight = from_keys all_urls 0 [];
    healthy = from_keys all_urls true [];
    marked_down_since = [];
    hostports = hostports_of urlsplit all_urls [];
    sticky_enabled = enabled;
    sticky_ttl_seconds = ttl;
    sticky = [];
  }
    where
      all_urls : List Text
      all_urls = urls ++ backups

  -- `self._healthy[url]`, at a key of `_in_flight`: both dictionaries have the same keys.
  pub is_healthy : Balancer → Text → Bool
  is_healthy b url = get_or false (lookup url b.healthy)

  pub is_primary_up : Balancer → Text × ℕ → Bool
  unfolding is_healthy contains
  is_primary_up b (url, n) = not (contains url b.backup_urls) && is_healthy b url

  pub is_backup_up : Balancer → Text × ℕ → Bool
  unfolding is_healthy contains
  is_backup_up b (url, n) = contains url b.backup_urls && is_healthy b url

  pub active_pool : Balancer → Dict ℕ
  unfolding is_primary_up is_backup_up
  active_pool b =
      or_else (filter (is_primary_up b) b.in_flight)
        (or_else (filter (is_backup_up b) b.in_flight) b.in_flight)

  pub fair_share : (hint candidates : ℕ) → ℕ
  fair_share hint n = ceil (over (of_ℕ hint) (of_ℕ (if ltb n 1 then 1 else n)))

  pub should_evict_pin : Option ℕ → Text → Dict ℕ → Bool
  unfolding evict_at fair_share
  should_evict_pin none pinned candidates = false
  should_evict_pin (some hint) pinned candidates =
      evict_at (fair_share hint (length candidates)) pinned candidates

  check_pin : Balancer → Option ℕ → F → Dict ℕ → Option (Text × F) → Option Text
  unfolding should_evict_pin is_candidate
  check_pin b hint now candidates none = none
  check_pin b hint now candidates (some (pinned, last_used)) =
      if lt b.sticky_ttl_seconds (minus now last_used)
      then none
      else if not (is_candidate pinned candidates)
      then none
      else if should_evict_pin hint pinned candidates
      then none
      else some pinned

  -- `now` is the reading of the clock in this method.
  pub pinned_instance : Balancer → Option ℕ → (now : F) → Text → Dict ℕ → Option Text
  unfolding check_pin lookup
  pinned_instance b hint now key candidates = check_pin b hint now candidates (lookup key b.sticky)

  -- `self._in_flight[url] += 1`
  pub reserve : Text → Balancer → Balancer
  unfolding lookup insert
  reserve url b = record b {
    in_flight = insert url (get_or 0 (lookup url b.in_flight) + 1) b.in_flight;
  }

  pub pin : Text → Text → F → Balancer → Balancer
  unfolding insert
  pin key url now b = record b { sticky = insert key (url, now) b.sticky }

  -- The instance that serves: the client's live pin, or the least loaded candidate.
  pub choose : Option ℕ → (checked_at : F) → Option Text → Balancer → Option Text
  unfolding active_pool pinned_instance least_loaded
  choose hint checked_at none b = least_loaded (active_pool b)
  choose hint checked_at (some key) b =
      elim (pinned_instance b hint checked_at key (active_pool b)) [
        | none ↦ least_loaded (active_pool b)
        | some pinned ↦ some pinned
      ]

  -- The request is counted on the instance, and the client is pinned to it.
  pub admit : Option Text → (stored_at : F) → Text → Balancer → Balancer
  unfolding reserve pin
  admit none stored_at url b = reserve url b
  admit (some key) stored_at url b = pin key url stored_at (reserve url b)

  pub sticky_key : Balancer → Option Text → Option Text
  sticky_key b source_ip = if b.sticky_enabled then source_ip else none

  -- `select`, given the source address; the clock is read once for the age of a pin and once for
  -- the new pin. `none` is the ValueError of `min` on no candidate.
  unfoldable pub select :
      Option ℕ → (checked_at stored_at : F) → Option Text → Balancer → Option (Text × Balancer)
  unfolding choose admit sticky_key
  select hint checked_at stored_at source_ip b =
      let key = sticky_key b source_ip in
      elim (choose hint checked_at key b) [
        | none ↦ none
        | some url ↦ some (url, admit key stored_at url b)
      ]

  pub give_back : Text → Balancer → Balancer
  unfolding lookup insert
  give_back url b =
      let current = get_or 0 (lookup url b.in_flight) in
      if leb current 0 then b else record b { in_flight = insert url (current - 1) b.in_flight }

  pub mark_down : Text → (now : F) → Balancer → Balancer
  unfolding insert
  mark_down url now b = record b {
    healthy = insert url false b.healthy;
    marked_down_since = insert url now b.marked_down_since;
  }

  unfoldable pub release : Text → (connect_failed : Bool) → (now : F) → Balancer → Balancer
  unfolding give_back mark_down is_healthy
  release url connect_failed now b =
      let b' = give_back url b in
      if connect_failed && is_healthy b' url then mark_down url now b' else b'

  -- The pins of one instance among `self._sticky.values()`.
  pub count_pins : Text → Dict (Text × F) → ℕ
  count_pins url [] = 0
  count_pins url ((key, (pinned, last_used)) ∷ d) =
      if pinned == url then suc (count_pins url d) else count_pins url d

  pub snapshot : Balancer → List InstanceStatus
  unfolding is_healthy count_pins contains
  snapshot b =
      map
        (λ e. record {
          url = e.0;
          is_healthy = is_healthy b e.0;
          in_flight = e.1;
          sticky_count = count_pins e.0 b.sticky;
          is_backup = contains e.0 b.backup_urls;
        })
        b.in_flight

  pub is_expired : F → Balancer → Text × (Text × F) → Bool
  is_expired now b (key, (pinned, last_used)) = lt b.sticky_ttl_seconds (minus now last_used)

  pub sweep_expired : F → Balancer → Balancer
  unfolding is_expired
  sweep_expired now b = record b { sticky = filter (λ e. not (is_expired now b e)) b.sticky }

  -- The two parts of `_check_down_instances` that hold the lock.
  pub down_urls : Balancer → List Text
  down_urls b = keys (filter (λ e. not e.1) b.healthy)

  pub recover : Text → Balancer → Balancer
  unfolding lookup insert delete
  recover url b = if get_or true (lookup url b.healthy) then b else record b {
    healthy = insert url true b.healthy;
    marked_down_since = delete url b.marked_down_since;
  }

  recover_each : (Text → Bool) → List Text → Balancer → Balancer
  unfolding recover
  recover_each probe [] b = b
  recover_each probe (u ∷ us) b = recover_each probe us (if probe u then recover u b else b)

  -- With no other method between its parts; `probe` tells which instances accept a connection.
  pub check_down_instances : (Text → Bool) → Balancer → Balancer
  unfolding down_urls recover_each
  check_down_instances probe b = recover_each probe (down_urls b) b
