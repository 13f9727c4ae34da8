-- ===== src/Lobby/Members.antt =====
-- src/app/lobby.rs: who is in a lobby, and how many.
use neonet.Base.{
  if◌then◌else◌, beq-eq, sym, List, [], ◌∷◌, ℕ, ◌≤◌, ◌≡◌, refl, Option, none, some, true, false,
  arith, length, ◌==◌, list_eq, nat_eq, Bool-cases, inl, inr,
}
use neonet.Identity.{identity_eq}
use neonet.Base.Maps.{get, insert, get-insert}
use neonet.Base.Sets.{discard, contains, contains-add, contains-discard, length-add}
use neonet.Lobby.{
  post_text, relay_text, find_roster, print, join, post, relay, leave, members, joined, posted,
  member_list, left, refuse, HostState, LobbyFrame, Home, Crates, Net, decide, join_hosted,
  leave_hosted, on_post, relay_encoded, relay_logged, on_relayed, append_lobby, append_log, Append,
  appended, refused, cut, handle_lobby, host_state, Text, PublicIdentity, Io, Result, Bytes, err,
  ok, members_of,
}

-- No hosted lobby has more members than its cap.
pub record IsWithinCap {Blob : Type 0} (home : Home Blob) : Type 0 where
  pub within :
      (name : Text) (state : HostState) (limit : ℕ)
      → get name home.hosts ≡ some state
      → state.max_members ≡ some limit
      → length state.members ≤ limit

module _ {Blob World : Type 0} (crates : Crates Blob) (net : Net World) where
  hosts-on_relayed :
      (text : Option Text) (disk : Append) (name : Text) (sender : PublicIdentity)
      (home : Home Blob) (w : World)
      → (on_relayed crates net text disk name sender home w).2.hosts ≡ home.hosts
  unfolding on_relayed append_lobby
  hosts-on_relayed none disk name sender home w = refl
  hosts-on_relayed (some text) disk name sender home w = refl

  hosts-relay_encoded :
      (p : Io Bytes) (name : Text) (sender : PublicIdentity) (text : Text) (home : Home Blob)
      (w : World)
      → (relay_encoded crates net p name sender text home w).2.hosts ≡ home.hosts
  unfolding relay_encoded
  hosts-relay_encoded (err e) name sender text home w = refl
  hosts-relay_encoded (ok payload) name sender text home w = refl

  hosts-on_post :
      (text : Result LobbyFrame Text) (disk : Append) (name : Text) (sender : PublicIdentity)
      (nonce ciphertext : Bytes) (home : Home Blob) (w : World)
      → (on_post crates net text disk name sender nonce ciphertext home w).2.hosts ≡ home.hosts
  unfolding on_post append_lobby append_log relay_logged
  hosts-on_post (err frame) disk name sender nonce ciphertext home w = refl
  hosts-on_post (ok text) appended name sender nonce ciphertext home w = rw hosts-relay_encoded refl
  hosts-on_post (ok text) refused name sender nonce ciphertext home w = refl
  hosts-on_post (ok text) (cut n) name sender nonce ciphertext home w = refl

-- The state of a lobby is within its own cap.
abbrev FitsCap : HostState → Type 0
FitsCap state = (limit : ℕ) → state.max_members ≡ some limit → length state.members ≤ limit

decide-FitsCap :
    (key : Text) (sender : PublicIdentity) (state : HostState)
    → FitsCap state
    → FitsCap (decide key sender state).1
unfolding decide
decide-FitsCap key sender state fits limit =
    ground (arith, fits limit, length-add sender state.members)

length-discard : (a : PublicIdentity) (xs : List PublicIdentity) → length (discard a xs) ≤ length xs
unfolding discard
length-discard a [] = omega arith
length-discard a (x ∷ xs) = ground (arith, length-discard a xs)

module _ {Blob : Type 0} where
  insert-IsWithinCap :
      (name : Text) (state : HostState) (home : Home Blob)
      → FitsCap state
      → IsWithinCap home
      → IsWithinCap (record home { hosts = insert name state home.hosts })
  insert-IsWithinCap name state home fits within = record {
    within = λ n s limit h c.
        ground (arith, get-insert n name state home.hosts, fits limit, within.within n s limit);
  }

  join_hosted-IsWithinCap :
      (o : Option HostState) (name key : Text) (sender : PublicIdentity) (home : Home Blob)
      → get name home.hosts ≡ o
      → IsWithinCap home
      → IsWithinCap (join_hosted o name key sender home).1
  unfolding join_hosted
  join_hosted-IsWithinCap none name key sender home e within = within
  join_hosted-IsWithinCap (some state) name key sender home e within =
      insert-IsWithinCap name (decide key sender state).1 home
        (decide-FitsCap key sender state (λ limit. within.within name state limit e)) within

  leave_hosted-IsWithinCap :
      (o : Option HostState) (name : Text) (sender : PublicIdentity) (home : Home Blob)
      → get name home.hosts ≡ o
      → IsWithinCap home
      → IsWithinCap (leave_hosted o name sender home)
  unfolding leave_hosted
  leave_hosted-IsWithinCap none name sender home e within = within
  leave_hosted-IsWithinCap (some state) name sender home e within =
      insert-IsWithinCap name _ home
        (λ limit c.
          omega (arith, length-discard sender state.members, within.within name state limit e c))
        within

  same_hosts-IsWithinCap :
      (home home' : Home Blob) → home'.hosts ≡ home.hosts → IsWithinCap home → IsWithinCap home'
  same_hosts-IsWithinCap home home' e within = record {
    within = λ name state limit h. within.within name state limit (rw (← e) h);
  }

module _ {Blob World : Type 0} (crates : Crates Blob) (net : Net World)
    (sort : List Text → List Text) where
  -- Whatever frame the host handles, whoever sends it, no lobby outgrows its cap.
  pub handle_lobby-IsWithinCap :
      (disk : Append) (sender : PublicIdentity) (frame : LobbyFrame) (home : Home Blob) (w : World)
      → IsWithinCap home
      → IsWithinCap (handle_lobby crates net sort disk sender frame home w).2
  unfolding handle_lobby host_state
  handle_lobby-IsWithinCap disk sender (join name key) home w within =
      join_hosted-IsWithinCap (get name home.hosts) name key sender home refl within
  handle_lobby-IsWithinCap disk sender (post name key nonce ciphertext) home w within =
      same_hosts-IsWithinCap home _
        (hosts-on_post crates net _ disk name sender nonce ciphertext home w) within
  handle_lobby-IsWithinCap disk sender (relay name nonce ciphertext) home w within =
      same_hosts-IsWithinCap home _ (hosts-on_relayed crates net _ disk name sender home w) within
  handle_lobby-IsWithinCap disk sender (leave name) home w within =
      leave_hosted-IsWithinCap (get name home.hosts) name sender home refl within
  handle_lobby-IsWithinCap disk sender (members name) home w within = within
  handle_lobby-IsWithinCap disk sender (joined name title welcome) home w within = within
  handle_lobby-IsWithinCap disk sender (posted name n) home w within = within
  handle_lobby-IsWithinCap disk sender (member_list names) home w within = within
  handle_lobby-IsWithinCap disk sender (left name) home w within = within
  handle_lobby-IsWithinCap disk sender (refuse message) home w within = within

-- Who is newly in the lobby, and by what frame.
module _ {Blob World : Type 0} (crates : Crates Blob) (net : Net World)
    (sort : List Text → List Text) where
  hosted_members :
      (name : Text) (home home' : Home Blob)
      → home'.hosts ≡ home.hosts
      → members_of name home' ≡ members_of name home
  unfolding members_of host_state
  hosted_members name home home' e = rw e refl

  members_of-insert :
      (n name : Text) (state : HostState) (home : Home Blob)
      → members_of n (record home { hosts = insert name state home.hosts })
        ≡ (if name == n then state.members else members_of n home)
  unfolding members_of host_state
  members_of-insert n name state home = ground (arith, get-insert n name state home.hosts)

  decide_admits :
      (key : Text) (sender j : PublicIdentity) (state : HostState)
      → contains j (decide key sender state).1.members ≡ true
      → contains j state.members ≡ false
      → (state.key ≡ key) × (j ≡ sender)
  unfolding decide
  decide_admits key sender j state after before = elim (Bool-cases (state.key == key)) [
    | inl e ↦ (
      beq-eq state.key key e,
      elim (Bool-cases (sender == j)) [
        | inl s ↦ sym (beq-eq sender j s)
        | inr n ↦ absurd (ground (arith, contains-add j sender state.members))
      ],
    )
    | inr n ↦ absurd (ground arith)
  ]

  members_of-hosted :
      (name : Text) (state : HostState) (home : Home Blob)
      → get name home.hosts ≡ some state
      → members_of name home ≡ state.members
  unfolding members_of host_state
  members_of-hosted name state home e = ground arith

  join_admits_only :
      (o : Option HostState) (name key n : Text) (sender j : PublicIdentity) (home : Home Blob)
      → get name home.hosts ≡ o
      → contains j (members_of n (join_hosted o name key sender home).1) ≡ true
      → contains j (members_of n home) ≡ false
      → (state : HostState) × (n ≡ name)
        × (get n home.hosts ≡ some state)
        × (state.key ≡ key)
        × (j ≡ sender)
  unfolding join_hosted
  join_admits_only none name key n sender j home e after before = absurd (ground arith)
  join_admits_only (some state) name key n sender j home e after before =
      let state' = (decide key sender state).1 in
      let after' : contains j (if name == n then state'.members else members_of n home) ≡ true =
        rw (← members_of-insert n name state' home) after in
      elim (Bool-cases (name == n)) [
        | inl t ↦
            let same = beq-eq name n t in
            let (good, me) =
              decide_admits key sender j state (ground arith)
                (rw (← members_of-hosted name state home e, same) before) in
            (state, sym same, rw (← same) e, good, me)
        | inr t ↦ absurd (ground arith)
      ]

  leave_admits_none :
      (o : Option HostState) (name n : Text) (sender j : PublicIdentity) (home : Home Blob)
      → get name home.hosts ≡ o
      → contains j (members_of n (leave_hosted o name sender home)) ≡ true
      → contains j (members_of n home) ≡ true
  unfolding leave_hosted
  leave_admits_none none name n sender j home e after = after
  leave_admits_none (some state) name n sender j home e after =
      let left : HostState = record state { members = discard sender state.members } in
      let after' : contains j (if name == n then left.members else members_of n home) ≡ true =
        rw (← members_of-insert n name left home) after in
      elim (Bool-cases (name == n)) [
        | inl t ↦
            rw (← beq-eq name n t, members_of-hosted name state home e)
              (ground (arith, contains-discard j sender state.members))
        | inr t ↦ ground arith
      ]

  -- Whatever frame the host handles, whoever sends it, a device that is in a lobby afterwards and
  -- was not before is the sender, and the frame asked to join with the key of that hosted lobby.
  pub handle_lobby_admits_only :
      (disk : Append) (sender j : PublicIdentity) (frame : LobbyFrame) (n : Text) (home : Home Blob)
      (w : World)
      → contains j (members_of n (handle_lobby crates net sort disk sender frame home w).2) ≡ true
      → contains j (members_of n home) ≡ false
      → (state : HostState) × (get n home.hosts ≡ some state)
        × (frame ≡ join n state.key)
        × (j ≡ sender)
  unfolding handle_lobby host_state
  handle_lobby_admits_only disk sender j (join name key) n home w after before =
      let (state, same, e, good, me) =
        join_admits_only (get name home.hosts) name key n sender j home refl after before in
      (state, e, rw (same, good) refl, me)
  handle_lobby_admits_only disk sender j (post name key nonce ciphertext) n home w after before =
      absurd (
        ground (
          arith,
          hosted_members n home _ (
              hosts-on_post crates net
                (post_text crates net (get name home.hosts) key nonce ciphertext) disk name sender
                nonce ciphertext home w),
        ))
  handle_lobby_admits_only disk sender j (relay name nonce ciphertext) n home w after before =
      absurd (
        ground (
          arith,
          hosted_members n home _ (
              hosts-on_relayed crates net
                (relay_text crates net (find_roster crates net name home) (print crates net sender)
                  nonce ciphertext)
                disk name sender home w),
        ))
  handle_lobby_admits_only disk sender j (leave name) n home w after before =
      absurd (ground (arith, leave_admits_none (get name home.hosts) name n sender j home refl))
  handle_lobby_admits_only disk sender j (members name) n home w after before =
      absurd (ground arith)
  handle_lobby_admits_only disk sender j (joined name title welcome) n home w after before =
      absurd (ground arith)
  handle_lobby_admits_only disk sender j (posted name m) n home w after before =
      absurd (ground arith)
  handle_lobby_admits_only disk sender j (member_list names) n home w after before =
      absurd (ground arith)
  handle_lobby_admits_only disk sender j (left name) n home w after before = absurd (ground arith)
  handle_lobby_admits_only disk sender j (refuse message) n home w after before =
      absurd (ground arith)
