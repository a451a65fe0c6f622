-- ===== src/Format/Start.antt =====
-- The monitor's `setup` on an image that `app_format` wrote.
use s3k_monitor.Prelude.{
  ℕ, ◌≤◌, ◌≡◌, Bool, true, false, ◌&&◌, not, if◌then◌else◌, List, some, length, map, done,
  bind_alike, ◌||◌, ◌==◌, pos, ◌++◌, [], pure, fault, spin, ◌>>◌, refl,
}
use s3k_monitor.S3k.{S3k}
use s3k_monitor.Codeauth.{Aes128, calc_sig}
use s3k_monitor.Monitor.{Monitor, app_pid}
use s3k_monitor.Monitor.Parse.{Process, parse_executable}
use s3k_monitor.Monitor.Parse.Encoding.{Entry, AllEntries, as_parsed}
use s3k_monitor.Monitor.Setup.{setup, prepare, start_app, is_authentic, bytes_from}
use s3k_monitor.Format.{format, read_loop}
use s3k_monitor.Format.Signed.{header_of, image_of, format_done, write_signed-is_authentic}
use s3k_monitor.Format.Header.{Named, all_words, image_of-parse_executable}

module _ (s3k : S3k) (aes : Aes128) where
  -- `setup` on an image that parses.
  setup_parsed :
      (image : List ℕ) (app : Process) (s : Monitor s3k) (good : Bool)
      → is_authentic s3k aes image ≡ good
      → parse_executable app_pid image ≡ done app
      → setup s3k aes true image s
        ≡ (prepare s3k >> (if good then start_app s3k true image app else pure tt)) s
  unfolding setup
  setup_parsed image app s good signed parsed =
      bind_alike (prepare s3k) _ _ s (λ _ s'. decided good s' signed)
    where
      decided :
          (good : Bool) (s' : Monitor s3k)
          → is_authentic s3k aes image ≡ good
          → elim (parse_executable app_pid image) [
            | done app ↦
                if true && not (is_authentic s3k aes image)
                then done (tt, s')
                else (start_app s3k true image app s')
            | fault ↦ fault
            | spin ↦ spin
          ]
            ≡ (if good then start_app s3k true image app else pure tt) s'
      decided true s' signed = rw (parsed, signed) refl
      decided false s' signed = rw (parsed, signed) refl

  -- From the lines of the section file to the start of the app, with `SECURITY`: where the lines
  -- give the numbers of up to 8 entries, with names of 1 to 7 bytes other than 0, each as one
  -- number, and fields that fit, `app_format` writes an image that is authentic for the monitor
  -- and that its parser reads back as these entries, in order and no more: `setup` prepares the
  -- monitor and starts the app with them. With `SIG_BROKEN` defined it stops after the
  -- preparation, unless the computed signature itself begins with the two bytes 0xFF. The name of
  -- an eighth entry comes out empty.
  pub setup-format :
      (strtol : List ℕ → ℕ) (broken : Bool) (lines : List (List ℕ)) (app_bin : List ℕ)
      (es : List Entry) (s : Monitor s3k)
      → AllEntries es
      → Named es
      → length es ≤ 8
      → map strtol lines ≡ all_words es
      → let app_buffer = header_of (read_loop strtol lines []) ++ app_bin in
        let signature = calc_sig aes (bytes_from app_buffer 0) (pos (length app_buffer)) in
        let good = not broken || ((signature 0 == 0xFF) && (signature 1 == 0xFF)) in
        let app : Process = record { pid = app_pid; header = as_parsed 0 es } in
        (image : List ℕ) × (format strtol aes broken (some lines) (some app_bin) ≡ done image)
        × (setup s3k aes true image s
            ≡ (prepare s3k >> (if good then start_app s3k true image app else pure tt)) s)
  setup-format strtol broken lines app_bin es s entries named room same =
      let image = image_of strtol aes broken lines app_bin in
      let app_buffer = header_of (read_loop strtol lines []) ++ app_bin in
      (
        image,
        format_done strtol aes broken lines app_bin,
        setup_parsed image _ s _ (write_signed-is_authentic s3k aes broken app_buffer) (
            image_of-parse_executable strtol aes broken app_pid lines app_bin es entries named room
              same),
      )
