-- ===== src/Examples/Formats.antt =====
-- Leases, the balancer and the metadata formats at concrete values.
use rsocket_go.Base.{◌<◌, ◌≤◌, ◌≡◌, refl, arith, true, All, List, [], ◌∷◌, ◌++◌}
use rsocket_go.Base.{some, map, length, take, drop}
use rsocket_go.Base.Int.{pos}
use rsocket_go.Base.Outcome.{done}
use rsocket_go.BigEndian.{Bytes}
use rsocket_go.Socket.Leaser.{Leaser, refresh, new_leaser, allowed, length_to}
use rsocket_go.Socket.Leaser as Leases
use rsocket_go.Extension.Composite.{build, push_all, scan_all, scanner}
use rsocket_go.Extension.Composite.RoundTrip.{IsEntry}
use rsocket_go.Extension.Composite.RoundTrip
use rsocket_go.Extension.Authentication.{
  Authentication, new_authentication, simple_auth, raw_bytes, parse_authentication,
}
use rsocket_go.Extension.Authentication as Authentications
use rsocket_go.Balancer.{
  RoundRobin, Call, new_round_robin_balancer, puts, closes, asks, perform, nexts,
}
use rsocket_go.Balancer.Turns

early_times : All (λ t. t ≤ 50) (10 ∷ 20 ∷ 50 ∷ [])
early_times = (omega arith, (omega arith, (omega arith, tt)))

late_times : All (λ t. 50 < t) (51 ∷ 80 ∷ [])
late_times = (omega arith, (omega arith, tt))

abbrev spent : Leaser
spent = record { deadline = 5; tickets = pos 0; initialized = true }

allowed-refresh_example :
    (allowed ((10 ∷ 20 ∷ 50 ∷ []) ++ (51 ∷ 80 ∷ [])) (refresh 50 (pos 2) (some spent))
      ≡ length_to 2 (10 ∷ 20 ∷ 50 ∷ []))
    × (allowed ((10 ∷ 20 ∷ 50 ∷ []) ++ (51 ∷ 80 ∷ [])) (some (new_leaser 50 (pos 2))) ≡ 0)
allowed-refresh_example =
    Leases.allowed-refresh spent 50 2 (10 ∷ 20 ∷ 50 ∷ []) (51 ∷ 80 ∷ []) early_times late_times

-- "text/css", which is well known, and "a/b", which is not.
abbrev entries : List (Bytes × Bytes)
entries =
    (116 ∷ 101 ∷ 120 ∷ 116 ∷ 47 ∷ 99 ∷ 115 ∷ 115 ∷ [], 1 ∷ 2 ∷ []) ∷ (97 ∷ 47 ∷ 98 ∷ [], []) ∷ []

entries_fit : All IsEntry entries
entries_fit =
    ((omega arith, omega arith, omega arith), ((omega arith, omega arith, omega arith), tt))

composite_round_trip_example :
    (raw : Bytes) × (build (push_all entries []) ≡ done (some raw))
    × (scan_all 3 (scanner raw) ≡ done entries)
composite_round_trip_example = RoundTrip.composite_round_trip entries 3 entries_fit (omega arith)

abbrev simple_login : Authentication
simple_login = record { type = simple_auth; payload = 1 ∷ 2 ∷ [] }

made_login : new_authentication simple_auth (1 ∷ 2 ∷ []) ≡ some simple_login
unfolding new_authentication
made_login = refl

authentication_round_trip_example :
    (simple_login ≡ record { type = simple_auth; payload = 1 ∷ 2 ∷ [] })
    × (parse_authentication (raw_bytes simple_login) ≡ done (some simple_login))
authentication_round_trip_example =
    Authentications.authentication_round_trip simple_auth (1 ∷ 2 ∷ []) simple_login made_login
      (omega arith) (omega arith)

abbrev three_clients : RoundRobin
three_clients = record {
  seq = 4;
  keys = (1 ∷ []) ∷ (2 ∷ []) ∷ (3 ∷ []) ∷ [];
  sockets = 10 ∷ 20 ∷ 30 ∷ [];
  left = [];
}

nexts-turns_example :
    nexts 3 three_clients
    ≡ done (
      record three_clients { seq = 7 },
      map some (drop 2 (10 ∷ 20 ∷ 30 ∷ []) ++ take 2 (10 ∷ 20 ∷ 30 ∷ [])),
    )
nexts-turns_example = Turns.nexts-turns three_clients refl (omega arith) (omega arith)

abbrev calls : List Call
calls = asks ∷ puts (1 ∷ []) 10 ∷ puts (2 ∷ []) 20 ∷ asks ∷ closes 10 ∷ closes 10 ∷ asks ∷ []

perform-InTurn_example :
    (b' : RoundRobin) × (perform calls new_round_robin_balancer ≡ done b')
    × (length b'.keys ≡ length b'.sockets)
perform-InTurn_example = Turns.perform-InTurn calls new_round_robin_balancer refl
