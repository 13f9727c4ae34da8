-- ===== src/Examples/Lobbies.antt =====
-- Runs of src/app/lobby.rs.
use neonet.Base.{
  ℕ, ◌≡◌, ◌≢◌, refl, Bool, true, false, Option, none, some, List, [], ◌∷◌, ◌++◌, arith, ◌⊎◌, inl,
  inr, list_eq, nat_eq,
}
use neonet.Base.Codec.{plain}
use neonet.Base.Maps.{get}
use neonet.Base.Sets.{contains}
use neonet.Base.Results.{ok}
use neonet.Base.Text.{Text}
use neonet.Lobby.{
  appended, HostState, MemberLobby, Home, Crates, Net, join, relay, handle_lobby, members_of, print,
  find_roster,
}
use neonet.Lobby.Members.{IsWithinCap, handle_lobby-IsWithinCap, handle_lobby_admits_only}
use neonet.Lobby.Posts.{LogsOnly, MayLog, handle_lobby_logs_sender}
use neonet.Examples.Wire.{alice, bob, carol}

-- A cipher that changes nothing, and a network that accepts every message.
abbrev crates : Crates (List MemberLobby)
crates = record {
  hex_hash = λ b. b;
  hex_decode = λ t. some t;
  aead_decrypt = λ key nonce ciphertext. some ciphertext;
  from_utf8_lossy = λ b. b;
  to_allocvec = λ frame. some [];
  roster = plain;
}

abbrev net : Net ℕ
net = record { identity = alice; new_message_id = λ w. (w ∷ [], w); send_raw = λ m w. (ok tt, w) }

abbrev room : HostState
room = record { key = 5 ∷ []; members = bob ∷ []; title = []; welcome = []; max_members = some 2 }

abbrev entry : MemberLobby
entry = record {
  name = 66 ∷ [];
  host_alias = [];
  host_fingerprint = 2 ∷ [];
  key_hex = 5 ∷ [];
  title = [];
  welcome = [];
}

abbrev home : Home (List MemberLobby)
home = record { hosts = (65 ∷ [], room) ∷ []; roster = some (entry ∷ []); logs = [] }

abbrev same : List Text → List Text
same names = names

home-IsWithinCap : IsWithinCap home
unfolding get
home-IsWithinCap = record { within = λ name state limit h c. ground arith }

handle_lobby-IsWithinCap_example :
    IsWithinCap (handle_lobby crates net same appended carol (join (65 ∷ []) (5 ∷ [])) home 0).2
handle_lobby-IsWithinCap_example =
    handle_lobby-IsWithinCap crates net same appended carol (join (65 ∷ []) (5 ∷ [])) home 0
      home-IsWithinCap

handle_lobby_admits_only_example :
    (state : HostState) × (get (65 ∷ []) home.hosts ≡ some state)
    × (join (65 ∷ []) (5 ∷ []) ≡ join (65 ∷ []) state.key)
    × (carol ≡ carol)
unfolding contains members_of get handle_lobby neonet.Base.Maps.insert neonet.Base.Sets.add
handle_lobby_admits_only_example =
    handle_lobby_admits_only crates net same appended carol carol (join (65 ∷ []) (5 ∷ []))
      (65 ∷ []) home 0 refl refl

handle_lobby_logs_sender_example :
    let home' =
      (handle_lobby crates net same appended bob (relay (66 ∷ []) [] (72 ∷ [])) home 0).2 in
    LogsOnly
      (print crates net bob)
      (MayLog crates net bob (relay (66 ∷ []) [] (72 ∷ [])) home)
      home
      home'
handle_lobby_logs_sender_example =
    handle_lobby_logs_sender crates net same appended bob (relay (66 ∷ []) [] (72 ∷ [])) home 0

stranger :
    (e : MemberLobby)
    → find_roster crates net (66 ∷ []) home ≡ some e
    → print crates net carol ≢ e.host_fingerprint
unfolding find_roster neonet.Base.Codec.load_or neonet.Identity.fingerprint
stranger e found same_host = ground arith
