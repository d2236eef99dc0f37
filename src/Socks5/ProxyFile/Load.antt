-- ===== src/Socks5/ProxyFile/Load.antt =====
-- internal/socks5/config.go: the proxy file that has been written is the one that is loaded.
use cfwg.Base.{
  ◌≡◌, refl, arith, Option, none, some, [], ◌∷◌, ◌++◌, Text, Result, ok, err, Error, text_eq_refl,
}
use cfwg.Base.TextMap.{insert, lookup-insert}
use cfwg.Socks5.ProxyFile.{
  FileConfig, Files, FileJson, WriteWorld, write_payload, write_encoded, write_in_dir,
  with_public_host, write_file_config, config_of, decoded, read_payload, load_file_config,
}

-- The decoder reads what the encoder makes of this file, with a line feed at its end.
abbrev pub ReadsBack : FileJson → FileConfig → Type 0
ReadsBack json file =
    (body : Text) → json.encode file ≡ ok body → json.decode (body ++ 10 ∷ []) ≡ ok file

module _ (json : FileJson) (w : WriteWorld) (path : Text) (files after : Files) where
  write_payload-ok :
      (payload : Text) (o : Option Error)
      → write_payload json w path payload o files ≡ (ok tt, after)
      → after ≡ insert path payload files
  unfolding write_payload
  write_payload-ok payload (some e) h = cc
  write_payload-ok payload none h = cc

  load-inserted :
      (file : FileConfig) (body : Text)
      → ReadsBack json file
      → json.encode file ≡ ok body
      → after ≡ insert path (body ++ 10 ∷ []) files
      → load_file_config json none path after ≡ ok (config_of file)
  unfolding load_file_config read_payload decoded
  load-inserted file body back made same =
      rw (same, lookup-insert path path (body ++ 10 ∷ []) files, text_eq_refl path, back body made)
        refl

  write_encoded-ok :
      (file : FileConfig) (encoded : Result Text)
      → json.encode file ≡ encoded
      → ReadsBack json file
      → write_encoded json w path encoded files ≡ (ok tt, after)
      → load_file_config json none path after ≡ ok (config_of file)
  unfolding write_encoded
  write_encoded-ok file (err e) made back h = cc
  write_encoded-ok file (ok body) made back h =
      load-inserted file body back made (write_payload-ok (body ++ 10 ∷ []) w.write_error h)

  write_in_dir-ok :
      (file : FileConfig) (o : Option Error)
      → ReadsBack json file
      → write_in_dir json w path file o files ≡ (ok tt, after)
      → load_file_config json none path after ≡ ok (config_of file)
  unfolding write_in_dir
  write_in_dir-ok file (some e) back h = cc
  write_in_dir-ok file none back h = write_encoded-ok file (json.encode file) refl back h

  -- A proxy file that has been written is loaded with the same settings, but for an empty public
  -- host, which is the local one.
  pub load_file_config-write_file_config :
      (cfg : FileConfig)
      → ReadsBack json (with_public_host cfg)
      → write_file_config json w path cfg files ≡ (ok tt, after)
      → load_file_config json none path after ≡ ok (config_of (with_public_host cfg))
  unfolding write_file_config
  load_file_config-write_file_config cfg back h =
      ground (arith, write_in_dir-ok (with_public_host cfg) w.mkdir_error back)
