-- ===== src/Storage/Cursors.antt =====
-- The scan cursors of backend/crates/storage/src/repositories.rs: how far each kind of scan of an
-- address has come.
use mathlib.Core.Option
use coin_listener.Prelude.{
  ◌≡◌, refl, Bool, true, ◌&&◌, List, Option, none, some, ◌==◌, find, arith, false,
}
use coin_listener.Prelude.Int.{ℤ}
use coin_listener.Prelude.Text.{Text, text_eq, text_eq_refl, text_eq_iff}
use coin_listener.Core.Clock.{Time}
use coin_listener.Core.Machine.{max_ℤ}
use coin_listener.Core.Models.{Uuid, ScanCursor}
use coin_listener.Storage.Sql.Upsert.{upsert, find-upsert, upserted}

abbrev pub is_cursor_of : Uuid → Text → ScanCursor → Bool
is_cursor_of address_id cursor_type c =
    c.address_id == address_id && text_eq c.cursor_type cursor_type

unfoldable pub scan_cursor : Uuid → Text → List ScanCursor → Option ScanCursor
scan_cursor address_id cursor_type cursors = find (is_cursor_of address_id cursor_type) cursors

-- The row that the statement inserts, with the id that it gets; `clock` is NOW().
abbrev pub new_cursor : Uuid → Time → Uuid → Uuid → Uuid → Text → ℤ → ScanCursor
new_cursor id clock tenant_id chain_id address_id cursor_type block = record {
  id = id;
  tenant_id = tenant_id;
  chain_id = chain_id;
  address_id = address_id;
  cursor_type = cursor_type;
  last_scanned_block = block;
  updated_at = clock;
}

abbrev pub raised_cursor : Time → ℤ → ScanCursor → ScanCursor
raised_cursor clock block c = record c {
  last_scanned_block = max_ℤ c.last_scanned_block block;
  updated_at = clock;
}

unfoldable pub upsert_scan_cursor :
    Uuid → Time → Uuid → Uuid → Uuid → Text → ℤ → List ScanCursor → List ScanCursor
upsert_scan_cursor id clock tenant_id chain_id address_id cursor_type block cursors =
    upsert (is_cursor_of address_id cursor_type)
      (new_cursor id clock tenant_id chain_id address_id cursor_type block)
      (raised_cursor clock block) cursors

-- The block of a cursor, where there is one.
unfoldable pub cursor_block : Uuid → Text → List ScanCursor → Option ℤ
cursor_block address_id cursor_type cursors =
    Option.map (λ (c : ScanCursor). c.last_scanned_block)
      (scan_cursor address_id cursor_type cursors)

-- The greater of a block and the one before, where there is one.
abbrev pub raised : Option ℤ → ℤ → ℤ
raised none block = block
raised (some before) block = max_ℤ before block

pub cursor_block-upsert :
    (id : Uuid) (clock : Time) (tenant_id chain_id address_id : Uuid) (cursor_type : Text)
    (block : ℤ) (cursors : List ScanCursor)
    → cursor_block address_id cursor_type
        (upsert_scan_cursor id clock tenant_id chain_id address_id cursor_type block cursors)
      ≡ some (raised (cursor_block address_id cursor_type cursors) block)
unfolding cursor_block scan_cursor upsert_scan_cursor
cursor_block-upsert id clock tenant_id chain_id address_id cursor_type block cursors =
    let e =
      find-upsert (is_cursor_of address_id cursor_type)
        (new_cursor id clock tenant_id chain_id address_id cursor_type block)
        (raised_cursor clock block) cursors (λ c. refl) own in
    rw e (of_found (find (is_cursor_of address_id cursor_type) cursors))
  where
    own :
        is_cursor_of address_id cursor_type
          (new_cursor id clock tenant_id chain_id address_id cursor_type block)
        ≡ true
    own = rw (text_eq_refl cursor_type) (ground arith)

    row : ScanCursor
    row = new_cursor id clock tenant_id chain_id address_id cursor_type block

    block_of : ScanCursor → ℤ
    block_of c = c.last_scanned_block

    of_found :
        (found : Option ScanCursor)
        → some (block_of (upserted row (raised_cursor clock block) found))
          ≡ some (raised (Option.map block_of found) block)
    of_found none = refl
    of_found (some c) = refl

apart :
    (a b : Uuid) (t u : Text)
    → (a == b && text_eq t u) ≡ false
    → (c : ScanCursor) → is_cursor_of a t c ≡ true
    → is_cursor_of b u c ≡ false
apart a b t u h c e =
    ground (arith, text_eq_iff c.cursor_type t, text_eq_iff t u, text_eq_iff c.cursor_type u)
