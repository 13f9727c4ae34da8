-- ===== src/Lobby/Posts.antt =====
-- src/app/lobby.rs: what a post and a relayed post write.
use neonet.Base.{
  Option-cases, Bool-cases, beq-eq, sym, ◌==◌, beq-ne, list_eq, nat_eq, List, [], ◌∷◌, ◌++◌, ◌≡◌,
  ◌≢◌, refl, Option, none, some, arith, ◌⊎◌, inl, inr,
}
use neonet.Base.Maps.{get}
use neonet.Lobby.{
  slug, sanitize_text, join_hosted, leave_hosted, join, post, relay, leave, members, joined, posted,
  member_list, left, refuse, LogLine, HostState, LobbyFrame, Home, Crates, Net, on_post,
  relay_encoded, relay_logged, relay_text, on_relayed, append_lobby, append_log, Append, appended,
  refused, cut, handle_lobby, host_state, print, post_text, find_roster, MemberLobby, Text,
  PublicIdentity, Bytes, err, ok, Io, Result,
}

-- The frame is one that lets its sender have a line with this file name written: a post with the key
-- of a lobby that is hosted here, or a relayed post from the host of a lobby on the roster.
abbrev pub MayLog :
    {Blob World : Type 0}
    → Crates Blob
    → Net World
    → PublicIdentity
    → LobbyFrame
    → Home Blob
    → Text
    → Type 0
MayLog crates net sender frame home file =
    ((name key : Text) × (nonce ciphertext : Bytes) × (state : HostState) × (frame
        ≡ post name key nonce ciphertext)
      × (get name home.hosts ≡ some state)
      × (state.key ≡ key)
      × (file ≡ slug name))
    ⊎ ((name : Text) × (nonce ciphertext : Bytes) × (entry : MemberLobby) × (frame
          ≡ relay name nonce ciphertext)
        × (find_roster crates net name home ≡ some entry)
        × (entry.host_fingerprint ≡ print crates net sender)
        × (file ≡ slug name))

-- At most one line is added, or a part of one; it names the sender, and the file may be written.
abbrev pub LogsOnly : {Blob : Type 0} → Text → (Text → Type 0) → Home Blob → Home Blob → Type 0
LogsOnly name may home home' =
    (home'.logs ≡ home.logs)
    ⊎ ((line : LogLine) × (line.sender ≡ name)
        × may line.file
        × (home'.logs ≡ home.logs ++ line ∷ []))

module _ {Blob World : Type 0} (crates : Crates Blob) (net : Net World)
    (sort : List Text → List Text) where
  -- A post without the key of a lobby that is hosted, or that does not open under it, is refused
  -- and changes nothing: nothing is logged and nothing is sent to anybody but the sender.
  pub refused_post :
      (disk : Append) (sender : PublicIdentity) (name key : Text) (nonce ciphertext : Bytes)
      (home : Home Blob) (w : World) {frame : LobbyFrame}
      → post_text crates net (host_state name home) key nonce ciphertext ≡ err frame
      → handle_lobby crates net sort disk sender (post name key nonce ciphertext) home w
        ≡ (ok none, frame ∷ [], home, w)
  unfolding handle_lobby on_post
  refused_post disk sender name key nonce ciphertext home w e = rw e refl

  logs-relay_encoded :
      (p : Io Bytes) (name : Text) (sender : PublicIdentity) (text : Text) (home : Home Blob)
      (w : World)
      → (relay_encoded crates net p name sender text home w).2.logs ≡ home.logs
  unfolding relay_encoded
  logs-relay_encoded (err e) name sender text home w = refl
  logs-relay_encoded (ok payload) name sender text home w = refl

  logged_post :
      (text : Result LobbyFrame Text) (disk : Append) (name : Text) (sender : PublicIdentity)
      (nonce ciphertext : Bytes) (home : Home Blob) (w : World) (may : Text → Type 0)
      → ((t : Text) → text ≡ ok t → may (slug name))
      → LogsOnly
          (print crates net sender)
          may
          home
          (on_post crates net text disk name sender nonce ciphertext home w).2
  unfolding on_post append_lobby append_log relay_logged
  logged_post (err frame) disk name sender nonce ciphertext home w may h = inl refl
  logged_post (ok text) appended name sender nonce ciphertext home w may h =
      let line : LogLine = record {
        file = slug name;
        sender = print crates net sender;
        text = sanitize_text text;
        written = none;
      } in
      inr (line, refl, h text refl, rw logs-relay_encoded refl)
  logged_post (ok text) refused name sender nonce ciphertext home w may h = inl refl
  logged_post (ok text) (cut n) name sender nonce ciphertext home w may h =
      inr (_, refl, h text refl, refl)

  logged_relay :
      (text : Option Text) (disk : Append) (name : Text) (sender : PublicIdentity)
      (home : Home Blob) (w : World) (may : Text → Type 0)
      → ((t : Text) → text ≡ some t → may (slug name))
      → LogsOnly
          (print crates net sender)
          may
          home
          (on_relayed crates net text disk name sender home w).2
  unfolding on_relayed append_lobby append_log
  logged_relay none disk name sender home w may h = inl refl
  logged_relay (some text) appended name sender home w may h = inr (_, refl, h text refl, refl)
  logged_relay (some text) refused name sender home w may h = inl refl
  logged_relay (some text) (cut n) name sender home w may h = inr (_, refl, h text refl, refl)

  -- What lets a post through.
  post_text_inv :
      (name key : Text) (nonce ciphertext : Bytes) (home : Home Blob) (t : Text)
      → post_text crates net (host_state name home) key nonce ciphertext ≡ ok t
      → (state : HostState) × (get name home.hosts ≡ some state) × (state.key ≡ key)
  unfolding post_text host_state
  post_text_inv name key nonce ciphertext home t h = elim (Option-cases (get name home.hosts)) [
    | inl e ↦ absurd (ground (arith, e))
    | inr (state, e) ↦ elim (Bool-cases (state.key == key)) [
      | inl k ↦ (state, e, beq-eq state.key key k)
      | inr k ↦ absurd (ground (arith, e, k))
    ]
  ]

  relay_text_inv :
      (o : Option MemberLobby) (from : Text) (nonce ciphertext : Bytes) (t : Text)
      → relay_text crates net o from nonce ciphertext ≡ some t
      → (entry : MemberLobby) × (o ≡ some entry) × (entry.host_fingerprint ≡ from)
  unfolding relay_text
  relay_text_inv none from nonce ciphertext t h = cc
  relay_text_inv (some entry) from nonce ciphertext t h =
      elim (Bool-cases (from == entry.host_fingerprint)) [
        | inl k ↦ (entry, refl, sym (beq-eq from entry.host_fingerprint k))
        | inr k ↦ absurd (ground (arith, k))
      ]

  logs-join :
      (o : Option HostState) (name key : Text) (sender : PublicIdentity) (home : Home Blob)
      → (join_hosted o name key sender home).1.logs ≡ home.logs
  unfolding join_hosted
  logs-join none name key sender home = refl
  logs-join (some state) name key sender home = refl

  logs-leave :
      (o : Option HostState) (name : Text) (sender : PublicIdentity) (home : Home Blob)
      → (leave_hosted o name sender home).logs ≡ home.logs
  unfolding leave_hosted
  logs-leave none name sender home = refl
  logs-leave (some state) name sender home = refl

  -- A frame adds at most one line, or a part of one, to the logs of the device that handles it. That
  -- line bears the fingerprint of the frame's sender, and the frame is a post with the key of the
  -- lobby that is hosted here under its name, or a relayed post from the host of the lobby of its
  -- name on the roster; the line goes to the log of that name.
  pub handle_lobby_logs_sender :
      (disk : Append) (sender : PublicIdentity) (frame : LobbyFrame) (home : Home Blob) (w : World)
      → LogsOnly
          (print crates net sender)
          (MayLog crates net sender frame home)
          home
          (handle_lobby crates net sort disk sender frame home w).2
  unfolding handle_lobby
  handle_lobby_logs_sender disk sender (join name key) home w =
      inl (logs-join (host_state name home) name key sender home)
  handle_lobby_logs_sender disk sender (post name key nonce ciphertext) home w =
      logged_post (post_text crates net (host_state name home) key nonce ciphertext) disk name
        sender nonce ciphertext home w
        (MayLog crates net sender (post name key nonce ciphertext) home)
        (λ t h.
          let (state, there, same) = post_text_inv name key nonce ciphertext home t h in
          inl (name, key, nonce, ciphertext, state, refl, there, same, refl))
  handle_lobby_logs_sender disk sender (relay name nonce ciphertext) home w =
      let found = find_roster crates net name home in
      let from = print crates net sender in
      logged_relay (relay_text crates net found from nonce ciphertext) disk name sender home w
        (MayLog crates net sender (relay name nonce ciphertext) home)
        (λ t h.
          let (entry, there, same) = relay_text_inv found from nonce ciphertext t h in
          inr (name, nonce, ciphertext, entry, refl, there, same, refl))
  handle_lobby_logs_sender disk sender (leave name) home w =
      inl (logs-leave (host_state name home) name sender home)
  handle_lobby_logs_sender disk sender (members name) home w = inl refl
  handle_lobby_logs_sender disk sender (joined name title welcome) home w = inl refl
  handle_lobby_logs_sender disk sender (posted name n) home w = inl refl
  handle_lobby_logs_sender disk sender (member_list names) home w = inl refl
  handle_lobby_logs_sender disk sender (left name) home w = inl refl
  handle_lobby_logs_sender disk sender (refuse message) home w = inl refl

  -- A relayed post is logged only if its sender is the host of a lobby of that name on the roster;
  -- from anyone else it changes nothing.
  pub relay_from_stranger :
      (disk : Append) (sender : PublicIdentity) (name : Text) (nonce ciphertext : Bytes)
      (home : Home Blob) (w : World)
      → ((entry : MemberLobby)
          → find_roster crates net name home ≡ some entry
          → print crates net sender ≢ entry.host_fingerprint)
      → handle_lobby crates net sort disk sender (relay name nonce ciphertext) home w
        ≡ (ok none, [], home, w)
  unfolding handle_lobby
  relay_from_stranger disk sender name nonce ciphertext home w stranger =
      elim (Option-cases (find_roster crates net name home)) [
        | inl e ↦ rw e (ground arith)
        | inr (entry, e) ↦ rw e (
            ground
              (arith, beq-ne (print crates net sender) entry.host_fingerprint (stranger entry e)))
      ]
