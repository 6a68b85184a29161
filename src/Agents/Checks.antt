-- ===== src/Agents/Checks.antt =====
-- The connections and programs of a batch that are taken (backend/internal/api/agents.go,
-- `validConn` and `validProgram`).
use pmacct_suricata_analyzer.Prelude.{
  ℕ, suc, ◌+◌, ◌*◌, Bool, true, not, ◌&&◌, ◌||◌, ltb, leb, ◌==◌, List, [], ◌∷◌, String, Option,
  none, some, str_eq, codes, if◌then◌else◌,
}
use pmacct_suricata_analyzer.Prelude.Int.{ℤ, pos, ltb_ℤ, leb_ℤ}
use pmacct_suricata_analyzer.Prelude.Search.{after_last}
use pmacct_suricata_analyzer.Agents.Rows.{Conn, ProgramIdentity, AgentEnv}
use pmacct_suricata_analyzer.Agents.Store.{day}
use pmacct_suricata_analyzer.Agents.Reports.{one_minute}
use pmacct_suricata_analyzer.Agents.Ingest.{trunc}

abbrev pub is_hex : ℕ → Bool
is_hex c = (leb b'0' c && leb c b'9') || (leb b'a' c && leb c b'f')

abbrev pub every {ℓ} : {A : Type ℓ} → (A → Bool) → List A → Bool
every p [] = true
every p (x ∷ xs) = p x && every p xs

-- `hexOK`.
unfoldable pub hex_ok : AgentEnv → String → ℕ → Bool
hex_ok env s n = (env.byte_length s == n) && every is_hex (codes s)

abbrev pub at_least : ℤ → ℤ → ℤ
at_least low n = if ltb_ℤ n low then low else n

-- `validProgram`.
unfoldable pub valid_program : AgentEnv → ProgramIdentity → Option ProgramIdentity
unfolding trunc hex_ok
valid_program env p =
    let exe = trunc env p.exe 512 in
    let sha1 = env.to_lower p.sha1 in
    let md5 = env.to_lower p.md5 in
    if str_eq exe "" || not (hex_ok env (env.to_lower p.sha256) 64)
    then none
    else some (record p {
      exe = exe;
      sha256 = env.to_lower p.sha256;
      sha1 = if hex_ok env sha1 40 then sha1 else "";
      md5 = if hex_ok env md5 32 then md5 else "";
      size = at_least (pos 0) p.size;
      origin = trunc env p.origin 32;
      package_name = trunc env p.package_name 128;
      package_version = trunc env p.package_version 64;
      signature = trunc env p.signature 16;
      signer = trunc env p.signer 128;
      company = trunc env p.company 128;
      product = trunc env p.product 128;
      file_version = trunc env p.file_version 64;
      description = trunc env p.description 256;
      note = trunc env p.note 256;
    })

-- `baseName`.
unfoldable pub base_name : String → String
unfolding after_last
base_name p = after_last b'/' (after_last b'\\' p)

abbrev pub is_known_proto : String → Bool
is_known_proto p = str_eq p "tcp" || str_eq p "udp"

abbrev pub is_port : ℤ → Bool
is_port n = leb_ℤ (pos 0) n && leb_ℤ n (pos 65535)

-- The minute is there, at most ten minutes ahead and at most seven days back.
abbrev pub is_timely : ℕ → ℕ → Bool
is_timely now minute =
    not ((minute == 0) || (ltb (now + 10 * one_minute) minute || ltb (minute + 7 * day) now))

-- What `validConn` makes of a connection that it takes.
unfoldable pub tidy_conn : AgentEnv → String → String → Conn → Conn
unfolding trunc base_name
tidy_conn env h d c =
    let exe = trunc env c.exe 512 in
    let name = trunc env c.name 128 in
    record c {
      proto = env.to_lower c.proto;
      host = h;
      dst = d;
      count = if leb_ℤ c.count (pos 0) then pos 1 else c.count;
      bytes = at_least (pos 0) c.bytes;
      exe = exe;
      name = if str_eq name "" then base_name exe else name;
      user = trunc env c.user 128;
      sha256 = trunc env (env.to_lower c.sha256) 64;
      cmdline = trunc env c.cmdline 2048;
      container = trunc env c.container 128;
    }

-- `validConn`.
unfoldable pub valid_conn : AgentEnv → ℕ → Conn → Option Conn
unfolding tidy_conn
valid_conn env now c =
    if not (is_known_proto (env.to_lower c.proto)) then none else elim (env.unmapped c.host) [
      | none ↦ none
      | some h ↦ elim (env.unmapped c.dst) [
        | none ↦ none
        | some d ↦
            if not (is_port c.dst_port && is_timely now c.minute)
            then none
            else some (tidy_conn env h d c)
      ]
    ]

-- The connections that are taken, and how many are not.
unfoldable pub sift : AgentEnv → ℕ → List Conn → List Conn × ℕ
unfolding valid_conn
sift env now [] = ([], 0)
sift env now (c ∷ cs) =
    let rest = sift env now cs in
    elim (valid_conn env now c) [ none ↦ (rest.0, suc rest.1) | some v ↦ (v ∷ rest.0, rest.1) ]

unfoldable pub valid_programs : AgentEnv → List ProgramIdentity → List ProgramIdentity
unfolding valid_program
valid_programs env [] = []
valid_programs env (p ∷ ps) =
    let rest = valid_programs env ps in
    elim (valid_program env p) [ none ↦ rest | some v ↦ v ∷ rest ]
