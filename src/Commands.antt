-- ===== src/Commands.antt =====
-- include/csCommon.h: the commands between the servers, the entry of a server, and the game zone.
-- A structure of bytes and 16-bit words has no gaps in it, so a command is the list of its bytes.
use ugly_ff.Base.{
  ℕ, ◌+◌, ◌*◌, ◌/◌, ◌%◌, ◌^◌, Bool, true, false, not, List, [], ◌∷◌, ◌++◌, Option, none, some,
  if◌then◌else◌, ◌==◌, length, drop, ℤ, to_int,
}
use ugly_ff.Text.Case.{Text, text_eq}
use ugly_ff.Packet.{◌>>=◌}
pub mod Entries

abbrev pub max_ip_length : ℕ
max_ip_length = 16

-- a WORD in memory, low byte first
unfoldable pub word_bytes : ℕ → List ℕ
word_bytes w = w % 256 ∷ w / 256 % 256 ∷ []

abbrev pub cmd_null : ℕ
cmd_null = 0

abbrev pub para_null : ℕ
para_null = 0

abbrev pub cmd_startup : ℕ
cmd_startup = 1

abbrev pub para_startup_request : ℕ
para_startup_request = 1

abbrev pub para_startup_response : ℕ
para_startup_response = 2

abbrev pub para_startup_ok : ℕ
para_startup_ok = 5

-- t_NullCmd
unfoldable pub null_cmd : ℕ → ℕ → List ℕ
null_cmd cmd para = cmd ∷ para ∷ []

-- t_Startup_Request, with a `pstrIP` of 16 bytes
unfoldable pub startup_request : ℕ → List ℕ → List ℕ
unfolding null_cmd word_bytes
startup_request server_type ip =
    null_cmd cmd_startup para_startup_request ++ (word_bytes server_type ++ ip)

-- t_Startup_Response
unfoldable pub startup_response : ℕ → List ℕ → ℕ → List ℕ
unfolding null_cmd word_bytes
startup_response server_id ip port =
    null_cmd cmd_startup para_startup_response ++ (word_bytes server_id ++ (ip ++ word_bytes port))

-- t_Startup_OK
unfoldable pub startup_ok : ℕ → List ℕ
unfolding null_cmd word_bytes
startup_ok server_id = null_cmd cmd_startup para_startup_ok ++ word_bytes server_id

-- The C string in an array: the bytes before the first 0, and `none` if there is none.
unfoldable pub c_string : List ℕ → Option Text
c_string [] = none
c_string (c ∷ cs) =
    let rest = (do s ← c_string cs; some (c ∷ s)) in if c == 0 then some [] else rest

-- strcpy of an array into another; `none` is a read or a write behind an array.
unfoldable pub strcpy : List ℕ → List ℕ → Option (List ℕ)
strcpy [] source = none
strcpy (d ∷ ds) [] = none
strcpy (d ∷ ds) (c ∷ cs) =
    let rest = (do t ← strcpy ds cs; some (c ∷ t)) in if c == 0 then some (0 ∷ ds) else rest

-- strcmp of two arrays, whether it is 0; `none` is a read behind an array.
unfoldable pub strcmp_zero : List ℕ → List ℕ → Option Bool
unfolding c_string text_eq
strcmp_zero a b = do s ← c_string a; t ← c_string b; some (text_eq s t)

-- Cmd::Super::ServerEntry
pub record ServerEntry : Type 0 where
  pub server_id : ℕ
  pub server_type : ℕ
  pub ip : List ℕ
  pub port : ℕ
  pub state : ℕ

unfoldable pub zero_bytes : ℕ → List ℕ
zero_bytes ℕ.zero = []
zero_bytes (ℕ.suc n) = 0 ∷ zero_bytes n

unfoldable pub new_entry : ServerEntry
unfolding zero_bytes
new_entry = record {
  server_id = 0;
  server_type = 0;
  ip = zero_bytes max_ip_length;
  port = 0;
  state = 0;
}

-- operator=, and the copy constructor over an entry whose `pstrIP` holds anything
unfoldable pub assign_entry : ServerEntry → ServerEntry → Option ServerEntry
unfolding strcpy
assign_entry e se = do ip ← strcpy e.ip se.ip; some (record se { ip = ip })

-- operator int
unfoldable pub entry_int : ServerEntry → ℕ
entry_int e = e.server_id

-- operator==, where both addresses are terminated
unfoldable pub entry_eq : ServerEntry → ServerEntry → Option Bool
unfolding strcmp_zero
entry_eq e p =
    if not (e.server_id == p.server_id)
    then some false
    else if not (e.server_type == p.server_type)
    then some false
    else (do
      same ← strcmp_zero e.ip p.ip
      some (
          if not same
          then false
          else if not (e.port == p.port)
          then false
          else if not (e.state == p.state)
          then false
          else true))

-- ServerEntryHash, over the library's hash of a WORD; the hash of superserver.h is 0 ^ this.
unfoldable pub entry_hash : (ℕ → ℕ) → ServerEntry → ℕ
entry_hash word_hash e = word_hash e.server_id

-- GameZone_t: `zone` and `game` lie over the low half of `id`, which is a DWORD.
pub record GameZone : Type 0 where
  pub id : ℕ

-- The constructor: `garbage` was in the place.
unfoldable pub new_zone : ℕ → GameZone
new_zone garbage = record { id = garbage / 2 ^ 32 * 2 ^ 32 }

unfoldable pub zone_of : GameZone → ℕ
zone_of z = z.id % 2 ^ 16

unfoldable pub game_of : GameZone → ℕ
game_of z = z.id / 2 ^ 16 % 2 ^ 16

unfoldable pub zone_int : GameZone → ℤ
zone_int z = to_int z.id

unfoldable pub zone_assign : GameZone → GameZone → GameZone
zone_assign z other = record z { id = other.id }

unfoldable pub zone_eq : GameZone → GameZone → Bool
zone_eq z other = z.id == other.id
