-- ===== src/Console/Tests.antt =====
-- The console over a flash of three settings.
use hydro_logger.Prelude.{
  ℕ, ◌≡◌, ◌≤◌, refl, ℤ, pos, true, false, Option, none, some, [], ◌∷◌, ◌++◌, length, arith,
}
use hydro_logger.Prelude.Bytes.{codes}
use hydro_logger.Nvs.Settings.{
  Store, set_device_code, PortalConfig, save_portal_config, get_device_serial, serial_text,
}
use hydro_logger.Nvs.Settings.Kept.{StoreLaws, Saved, save_portal_config-Saved}
use hydro_logger.Console.{max_line_len, keys, handle_line, handle_serial_number, parse_serial_code}
use hydro_logger.Console.Line.{keys_bounded}
use hydro_logger.Console.Serial.{typed_serial}

record Flash : Type 0 where
  pub code : Option ℕ
  pub offset : Option ℤ
  pub k : Option ℕ

abbrev store : Store
store = record {
  Flash = Flash;
  opens = λ f. true;
  read_code = λ f. f.code;
  read_offset = λ f. f.offset;
  read_k = λ f. f.k;
  write_code = λ n f. record f { code = some n };
  write_offset = λ z f. record f { offset = some z };
  write_k = λ n f. record f { k = some n };
  commit = λ f. (true, f);
}

abbrev store_laws : StoreLaws store
store_laws = record {
  opened = λ f. refl;
  committed = λ f. refl;
  code_commit = λ f. refl;
  offset_commit = λ f. refl;
  k_commit = λ f. refl;
  code_code = λ n f. refl;
  code_offset = λ z f. refl;
  code_k = λ n f. refl;
  offset_code = λ n f. refl;
  offset_offset = λ z f. refl;
  offset_k = λ n f. refl;
  k_code = λ n f. refl;
  k_offset = λ z f. refl;
  k_k = λ n f. refl;
}

abbrev erased : Flash
erased = record { code = none; offset = none; k = none }

typed_serial_example :
    let t =
      keys store
        (codes "serial_number:" ++ (serial_text 12 ++ 13 ∷ []))
        (record { line = []; flash = erased }) in
    (t.line ≡ []) × (get_device_serial store 32 t.flash ≡ serial_text 12)
typed_serial_example = typed_serial store store_laws 12 erased (omega arith)

keys_bounded_example :
    length (keys store (codes "serial") (record { line = codes "ab"; flash = erased })).line
    ≤ max_line_len
keys_bounded_example =
    keys_bounded store (codes "serial") (record { line = codes "ab"; flash = erased }) (omega arith)

abbrev config : PortalConfig
config = record {
  save_code = true;
  dev_code = 7;
  save_offset = false;
  wl_offset = pos 3;
  save_k = true;
  vol_k = 1010;
}

save_portal_config-Saved_example :
    ((save_portal_config store config erased).0 ≡ true)
    × Saved store store_laws config erased (save_portal_config store config erased).1
save_portal_config-Saved_example = save_portal_config-Saved store store_laws config erased

-- Typed with a slip that is taken back, spaces and another prefix.
slipped :
    (keys store
      (codes " serial_numbr" ++ (8 ∷ codes "er : TD_XX_0345 \r"))
      (record { line = []; flash = erased })).flash.code
    ≡ some 345
unfolding keys handle_line handle_serial_number parse_serial_code set_device_code
slipped = refl
