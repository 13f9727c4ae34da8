-- ===== src/Lobby.antt =====
-- src/app/lobby.rs and src/lobby.rs: the host of a lobby, and what a member's device does with a
-- relayed post. The hosts' table is for one home directory; a log file is the list of its lines
-- without their times, and the directory the list of all lines with the names of their files, each
-- with how much of it was written.
pub mod Members
pub mod Posts
pub mod Channel
use neonet.Base.{
  String, ℕ, ◌+◌, Bool, true, false, Option, none, some, List, [], ◌∷◌, ◌++◌, ◌==◌, list_eq, nat_eq,
  not, ◌&&◌, ◌||◌, leb, length, map, find, is_empty, if◌then◌else◌,
}
use neonet.Base.Codec.{Codec, load_or}
use neonet.Base.Maps.{Map, get, insert}
use neonet.Base.Sets.{add, discard}
use neonet.Base.Results.{
  Result, Io, IoError, ok, err, io_error, invalid_data, invalid_input, other, guard, ok_or, ◌>>=◌,
  ◌>>◌, is_ok,
}
use neonet.Base.Text.{Bytes, Text}
use neonet.Identity.{PublicIdentity, fingerprint, identity_eq}
use neonet.Messaging.{Message, max_message_size}

pub data LobbyFrame : Type 0 where
  join : Text → Text → LobbyFrame
  joined : Text → Text → Text → LobbyFrame
  posted : Text → ℕ → LobbyFrame
  refuse : String → LobbyFrame
  post : Text → Text → Bytes → Bytes → LobbyFrame
  relay : Text → Bytes → Bytes → LobbyFrame
  leave : Text → LobbyFrame
  left : Text → LobbyFrame
  members : Text → LobbyFrame
  member_list : List Text → LobbyFrame

pub record LobbyOptions : Type 0 where
  pub title : Text
  pub welcome : Text
  pub max_members : Option ℕ

pub record HostState : Type 0 where
  pub key : Text
  pub members : List PublicIdentity
  pub title : Text
  pub welcome : Text
  pub max_members : Option ℕ

pub record MemberLobby : Type 0 where
  pub name : Text
  pub host_alias : Text
  pub host_fingerprint : Text
  pub key_hex : Text
  pub title : Text
  pub welcome : Text

-- What the system does on the append of a line: all of it, nothing, or its first bytes and an error.
pub data Append : Type 0 where
  appended refused : Append
  cut : ℕ → Append

-- A line of a log: `written` is `none` for the whole line, and else the number of its bytes that a
-- failed append has left in the file.
pub record LogLine : Type 0 where
  pub file : Text
  pub sender : Text
  pub text : Text
  pub written : Option ℕ

-- `HOSTS`, `roster.json` and the logs of the lobbies
pub record Home (Blob : Type 0) : Type 0 where
  pub hosts : Map Text HostState
  pub roster : Option Blob
  pub logs : List LogLine

-- The hash in hexadecimal, `hex::decode`, the cipher's `decrypt`, `String::from_utf8_lossy`,
-- `postcard::to_allocvec` of an application frame with a lobby frame, and the serialiser of the
-- roster.
pub record Crates (Blob : Type 0) : Type 0 where
  pub hex_hash : Bytes → Text
  pub hex_decode : Text → Option Bytes
  pub aead_decrypt : Bytes → Bytes → Bytes → Option Bytes
  pub from_utf8_lossy : Bytes → Text
  pub to_allocvec : LobbyFrame → Option Bytes
  pub roster : Codec (List MemberLobby) Blob

-- What the handler uses of its node: the node's own identity, a fresh message id, and `send_raw`.
pub record Net (World : Type 0) : Type 0 where
  pub identity : PublicIdentity
  pub new_message_id : World → Bytes × World
  pub send_raw : Message → World → Io (Unit {0}) × World

pub data LobbyNotice : Type 0 where
  joined_notice : Text → Text → LobbyNotice
  posted_notice : Text → Text → ℕ → Text → LobbyNotice
  relayed_notice : Text → Text → Text → LobbyNotice
  left_notice : Text → Text → LobbyNotice
  refused_notice : String → LobbyNotice

-- `is_ascii_alphanumeric`, `_`, `-` or `.`
unfoldable pub is_safe : ℕ → Bool
is_safe c =
    leb 48 c && leb c 57
    || leb 65 c && leb c 90
    || leb 97 c && leb c 122
    || c == 95
    || c == 45
    || c == 46

-- `'-'`
abbrev pub dash : ℕ
dash = 45

abbrev pub trim_start : Text → Text
trim_start [] = []
trim_start (c ∷ cs) = if c == dash then trim_start cs else c ∷ cs

abbrev pub trim_end : Text → Text
trim_end [] = []
trim_end (c ∷ cs) = let rest = trim_end cs in if c == dash && is_empty rest then [] else c ∷ rest

-- `"lobby"`
abbrev pub default_slug : Text
default_slug = 108 ∷ 111 ∷ 98 ∷ 98 ∷ 121 ∷ []

unfoldable pub slug : Text → Text
unfolding is_safe
slug name =
    let trimmed = trim_end (trim_start (map (λ c. if is_safe c then c else dash) name)) in
    if is_empty trimmed then default_slug else trimmed

-- `text.replace(['\r', '\n'], " ")`
unfoldable pub sanitize_text : Text → Text
sanitize_text = map (λ c. if c == 13 || c == 10 then 32 else c)

-- `LobbyFrame::Join`
pub data JoinDecision : Type 0 where
  admitted : Text → Text → JoinDecision
  full wrong_key unknown : JoinDecision

abbrev pub at_cap : HostState → Bool
at_cap state = elim state.max_members [ none ↦ false | some cap ↦ leb cap (length state.members) ]

-- The decision, and the state of the lobby afterwards.
unfoldable pub decide : Text → PublicIdentity → HostState → JoinDecision × HostState
decide key sender state =
    if state.key == key
    then if at_cap state
      then (full, state)
      else (admitted state.title state.welcome, record state { members = add sender state.members })
    else (wrong_key, state)

-- The handler's result, the frames sent back, the home and the network.
abbrev pub Handled : Type 0 → Type 0 → Type 0
Handled Blob World = Io (Option LobbyNotice) × List LobbyFrame × Home Blob × World

-- `append_log`
unfoldable pub append_log :
    Append → Text → Text → Text → List LogLine → Io (Unit {0}) × List LogLine
unfolding sanitize_text
append_log appended file sender text logs =
    let line : LogLine = record {
      file = file;
      sender = sender;
      text = sanitize_text text;
      written = none;
    } in
    (ok tt, logs ++ line ∷ [])
append_log refused file sender text logs = (err (io_error other "disk"), logs)
append_log (cut n) file sender text logs =
    let line : LogLine = record {
      file = file;
      sender = sender;
      text = sanitize_text text;
      written = some n;
    } in
    (err (io_error other "disk"), logs ++ line ∷ [])

module _ {Blob : Type 0} where
  unfoldable pub append_lobby : Append → Text → Text → Text → Home Blob → Io (Unit {0}) × Home Blob
  unfolding slug append_log
  append_lobby disk name sender text home =
      let (res, logs) = append_log disk (slug name) sender text home.logs in
      (res, record home { logs = logs })

  -- `register_host`
  unfoldable pub register_host : Text → Text → LobbyOptions → Home Blob → Home Blob
  register_host name key_hex options home =
      let state : HostState = record {
        key = key_hex;
        members = [];
        title = options.title;
        welcome = options.welcome;
        max_members = options.max_members;
      } in
      record home { hosts = insert name state home.hosts }

  unfoldable pub host_state : Text → Home Blob → Option HostState
  host_state name home = get name home.hosts

  join_hosted :
      Option HostState → Text → Text → PublicIdentity → Home Blob → JoinDecision × Home Blob
  unfolding decide
  join_hosted none name key sender home = (unknown, home)
  join_hosted (some state) name key sender home =
      let (decision, state') = decide key sender state in
      (decision, record home { hosts = insert name state' home.hosts })

  leave_hosted : Option HostState → Text → PublicIdentity → Home Blob → Home Blob
  leave_hosted none name sender home = home
  leave_hosted (some state) name sender home =
      let state' : HostState = record state { members = discard sender state.members } in
      record home { hosts = insert name state' home.hosts }

  -- `.map(|state| state.members.clone()).unwrap_or_default()`
  unfoldable pub members_of : Text → Home Blob → List PublicIdentity
  unfolding host_state
  members_of name home = elim (host_state name home) [ none ↦ [] | some state ↦ state.members ]

module _ {Blob World : Type 0} (crates : Crates Blob) (net : Net World) where
  abbrev pub print : PublicIdentity → Text
  print = fingerprint crates.hex_hash

  -- `hex::decode(..)` and `try_into` an array of 32 bytes
  unfoldable pub key_bytes : Text → Option Bytes
  key_bytes key_hex = elim (crates.hex_decode key_hex) [
    | none ↦ none
    | some bytes ↦ if length bytes == 32 then some bytes else none
  ]

  unfoldable pub decrypt : Bytes → Bytes → Bytes → Io Bytes
  decrypt key nonce ciphertext = do
    guard (length nonce == 24) (io_error invalid_input "bad nonce length")
    ok_or (crates.aead_decrypt key nonce ciphertext)
        (io_error invalid_data "lobby decryption failed")

  unfoldable pub find_roster : Text → Home Blob → Option MemberLobby
  find_roster name home = find (λ lobby. lobby.name == name) (load_or crates.roster [] home.roster)

  on_decided : JoinDecision → Text → PublicIdentity → Io (Option LobbyNotice) × List LobbyFrame
  on_decided full name sender = (ok none, refuse "lobby is at its member cap" ∷ [])
  on_decided (admitted title welcome) name sender =
      (ok (some (joined_notice name (print sender))), joined name title welcome ∷ [])
  on_decided wrong_key name sender = (ok none, refuse "wrong lobby key" ∷ [])
  on_decided unknown name sender = (ok none, refuse "no lobby of that name is hosted here" ∷ [])

  -- `LobbyFrame::Post` up to the text: the refusals in order.
  opened : Option Bytes → Bytes → Bytes → Result LobbyFrame Text
  unfolding decrypt
  opened none nonce ciphertext = err (refuse "malformed lobby key")
  opened (some key) nonce ciphertext = elim (decrypt key nonce ciphertext) [
    | err e ↦ err (refuse "could not decrypt post")
    | ok text ↦ ok (crates.from_utf8_lossy text)
  ]

  unfoldable pub post_text : Option HostState → Text → Bytes → Bytes → Result LobbyFrame Text
  unfolding opened key_bytes
  post_text none key nonce ciphertext = err (refuse "wrong lobby key or no such lobby")
  post_text (some state) key nonce ciphertext =
      if state.key == key
      then opened (key_bytes key) nonce ciphertext
      else err (refuse "wrong lobby key or no such lobby")

  -- The message that is sent to a member, with its fresh id.
  unfoldable pub relayed_message : Bytes → Bytes → PublicIdentity → Message
  relayed_message id payload member = record {
    id = id;
    sender = net.identity;
    recipient = member;
    payload = payload;
  }

  -- `for member in &members`
  unfoldable pub relay_all : List PublicIdentity → Bytes → World → ℕ × World
  unfolding relayed_message
  relay_all [] payload w = (0, w)
  relay_all (member ∷ others) payload w =
      let (id, w1) = net.new_message_id w in
      let (res, w2) = net.send_raw (relayed_message id payload member) w1 in
      let (n, w3) = relay_all others payload w2 in (if is_ok res then n + 1 else n, w3)

  -- `AppFrame::encode`
  unfoldable pub encode : LobbyFrame → Io Bytes
  encode frame = do
    bytes ← ok_or (crates.to_allocvec frame) (io_error invalid_data "codec")
    guard (leb (length bytes) max_message_size)
        (io_error invalid_input "application frame too large")
    ok bytes

  relay_encoded : Io Bytes → Text → PublicIdentity → Text → Home Blob → World → Handled Blob World
  unfolding relay_all members_of
  relay_encoded (err e) name sender text home w = (err e, [], home, w)
  relay_encoded (ok payload) name sender text home w =
      let (relayed, w') = relay_all (members_of name home) payload w in
      (
        ok (some (posted_notice name (print sender) relayed text)),
        posted name relayed ∷ [],
        home,
        w',
      )

  relay_logged :
      Io (Unit {0})
      → Text
      → PublicIdentity
      → Text
      → Bytes
      → Bytes
      → Home Blob
      → World
      → Handled Blob World
  unfolding relay_encoded encode
  relay_logged (err e) name sender text nonce ciphertext home w = (err e, [], home, w)
  relay_logged (ok u) name sender text nonce ciphertext home w =
      relay_encoded (encode (relay name nonce ciphertext)) name sender text home w

  on_post :
      Result LobbyFrame Text
      → Append
      → Text
      → PublicIdentity
      → Bytes
      → Bytes
      → Home Blob
      → World
      → Handled Blob World
  unfolding relay_logged append_lobby
  on_post (err frame) disk name sender nonce ciphertext home w = (ok none, frame ∷ [], home, w)
  on_post (ok text) disk name sender nonce ciphertext home w =
      let (res, home') = append_lobby disk name (print sender) text home in
      relay_logged res name sender text nonce ciphertext home' w

  -- `LobbyFrame::Relay`
  relay_text : Option MemberLobby → Text → Bytes → Bytes → Option Text
  unfolding key_bytes decrypt
  relay_text none from nonce ciphertext = none
  relay_text (some entry) from nonce ciphertext =
      if not (from == entry.host_fingerprint) then none else elim (key_bytes entry.key_hex) [
        | none ↦ none
        | some key ↦ elim (decrypt key nonce ciphertext) [
          | err e ↦ none
          | ok text ↦ some (crates.from_utf8_lossy text)
        ]
      ]

  on_relayed : Option Text → Append → Text → PublicIdentity → Home Blob → World → Handled Blob World
  unfolding append_lobby
  on_relayed none disk name sender home w = (ok none, [], home, w)
  on_relayed (some text) disk name sender home w =
      let (res, home') = append_lobby disk name (print sender) text home in
      (
        elim res [ err e ↦ err e | ok u ↦ ok (some (relayed_notice name (print sender) text)) ],
        [],
        home',
        w,
      )

  -- `handle_lobby`, with the order in which names are sorted for `MemberList`.
  unfoldable pub handle_lobby :
      (List Text → List Text)
      → Append
      → PublicIdentity
      → LobbyFrame
      → Home Blob
      → World
      → Handled Blob World
  unfolding host_state join_hosted on_decided on_post post_text leave_hosted relay_text on_relayed
      find_roster members_of
  handle_lobby sort disk sender (join name key) home w =
      let (decision, home') = join_hosted (host_state name home) name key sender home in
      let (res, replies) = on_decided decision name sender in (res, replies, home', w)
  handle_lobby sort disk sender (post name key nonce ciphertext) home w =
      on_post (post_text (host_state name home) key nonce ciphertext) disk name sender nonce
        ciphertext home w
  handle_lobby sort disk sender (relay name nonce ciphertext) home w =
      on_relayed (relay_text (find_roster name home) (print sender) nonce ciphertext) disk name
        sender home w
  handle_lobby sort disk sender (leave name) home w = (
    ok (some (left_notice name (print sender))),
    left name ∷ [],
    leave_hosted (host_state name home) name sender home,
    w,
  )
  handle_lobby sort disk sender (members name) home w =
      (ok none, member_list (sort (map print (members_of name home))) ∷ [], home, w)
  handle_lobby sort disk sender (joined name title welcome) home w = (ok none, [], home, w)
  handle_lobby sort disk sender (posted name relayed) home w = (ok none, [], home, w)
  handle_lobby sort disk sender (member_list names) home w = (ok none, [], home, w)
  handle_lobby sort disk sender (left name) home w = (ok none, [], home, w)
  handle_lobby sort disk sender (refuse message) home w =
      (ok (some (refused_notice message)), [], home, w)
