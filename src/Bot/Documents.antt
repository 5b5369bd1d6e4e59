-- ===== src/Bot/Documents.antt =====
-- app/handlers/admin.py, `handle_document`: the file of clean addresses.
pub mod Names
use config_manager.Prelude.{
  ◌-◌, ℕ, ◌+◌, Bool, false, not, ◌&&◌, ◌||◌, Option, none, some, List, [], ◌∷◌, ◌++◌, take, nat_beq,
  leb, ◌==◌, if◌then◌else◌, length, drop,
}
use config_manager.Prelude.Text.{Text, text_eq, codes, strip, starts_with}
use config_manager.Prelude.Case.{Unicode, lower}
use config_manager.Utils.Ip.{is_valid_ip}
use config_manager.Database.Sources.{delete_old_clean_ips}
use config_manager.Bot.Texts.Addresses.{save_ip}
use config_manager.Bot.Context.{
  awaiting_clean_ip, UserData, pop_flag, Store, denied, only_txt, not_readable, ips_saved,
  HandlerResult, Env, require_admin, reply, decline,
}

-- `s.endswith(suffix)`
unfoldable pub ends_with : Text → Text → Bool
ends_with suffix s = leb (length suffix) (length s) && drop (length s - length suffix) s == suffix

-- `re.sub(r"[\/]+", "_", s)`; the first argument tells whether the slash before was one.
unfoldable pub no_slashes : Bool → Text → Text
no_slashes inside [] = []
no_slashes inside (c ∷ s) =
    let slash = nat_beq c b'/' in
    let rest = no_slashes slash s in
    if slash then (if inside then rest else b'_' ∷ rest) else c ∷ rest

-- `s.replace("..", "")`
unfoldable pub no_dots : Text → Text
no_dots [] = []
no_dots (c ∷ []) = c ∷ []
no_dots (c ∷ d ∷ s) =
    let dropped = no_dots s in
    let kept = c ∷ no_dots (d ∷ s) in if nat_beq c b'.' && nat_beq d b'.' then dropped else kept

-- `[A-Za-z0-9._-]`
unfoldable pub is_safe : ℕ → Bool
is_safe c =
    (leb b'A' c && leb c b'Z')
    || (leb b'a' c && leb c b'z')
    || (leb b'0' c && leb c b'9')
    || nat_beq c b'.'
    || nat_beq c b'_'
    || nat_beq c b'-'

-- `re.sub(r"[^A-Za-z0-9._-]", "_", s)`
unfoldable pub only_safe : Text → Text
unfolding is_safe
only_safe [] = []
only_safe (c ∷ s) = (if is_safe c then c else b'_') ∷ only_safe s

-- `safe_name[:120] if safe_name else "clean_ips.txt"`
unfoldable pub cut_name : Text → Text
cut_name [] = codes "clean_ips.txt"
cut_name (c ∷ s) = take 120 (c ∷ s)

-- the name under which a file is stored
unfoldable pub safe_name : Unicode → Text → Text
unfolding no_slashes no_dots only_safe cut_name ends_with lower
safe_name u name =
    let cut = cut_name (only_safe (no_dots (no_slashes false name))) in
    if ends_with (codes ".txt") (lower u cut) then cut else cut ++ codes ".txt"

-- the loop over the lines, with the numbers of the addresses saved and refused
unfoldable pub save_lines : ℕ → List Text → Store → ℕ → ℕ → Store × ℕ × ℕ
unfolding save_ip
save_lines now [] s count invalid = (s, count, invalid)
save_lines now (line ∷ lines) s count invalid =
    let ip = strip line in
    let skipped = ip == [] || starts_with (codes "#") ip in
    let valid = is_valid_ip ip in
    save_lines now lines (if skipped then s else if valid then save_ip now ip s else s)
      (if skipped then count else if valid then count + 1 else count)
      (if skipped then invalid else if valid then invalid else invalid + 1)

-- `crud.delete_old_clean_ips`, with its default of five days
unfoldable pub without_old : ℕ → Store → Store
unfolding delete_old_clean_ips
without_old now s = record s { clean_ips = (delete_old_clean_ips now 5 s.clean_ips).1 }

-- A document: its name, and its lines. The lines are those read before a failure, which `broken` tells.
pub record Document : Type 0 where
  pub file_name : Text
  pub lines : List Text
  pub broken : Bool

-- `handle_document`; a message of this handler may hold no document.
unfoldable pub handle_document : Env → ℕ → Option Document → Store → UserData → HandlerResult
unfolding require_admin pop_flag reply decline save_lines without_old ends_with
handle_document e user_id given s d =
    if not (d.flags awaiting_clean_ip)
    then decline s d
    else if not (require_admin e user_id s)
    then reply s d (denied ∷ [])
    else elim given [
      | none ↦ reply s d (only_txt ∷ [])
      | some doc ↦
          if not (ends_with (codes ".txt") doc.file_name)
          then reply s d (only_txt ∷ [])
          else let r = save_lines e.now doc.lines (without_old e.now s) 0 0 in
            reply r.0 (pop_flag awaiting_clean_ip d)
              ((if doc.broken then not_readable else ips_saved r.1 r.2) ∷ [])
    ]
