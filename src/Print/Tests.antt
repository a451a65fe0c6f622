-- ===== src/Print/Tests.antt =====
-- The theorems of altio.c at concrete inputs.
use s3k_monitor.Prelude.{◌≡◌, [], ◌∷◌, done}
use s3k_monitor.Print.{Uart, word, text, codes, printf}
use s3k_monitor.Print.Rendered.{printf_lem}
use s3k_monitor.Print.Calls.{PrintsHex, printf-IsHex}

abbrev silent : Uart
silent = record { sent = []; status = []; received = 0 }

printf_lem_example :
    printf (codes "%s=0x%X\n") (text (codes "end") ∷ word 0x80021000 ∷ []) silent
    ≡ done (15, record silent { sent = codes "end=0x80021000\n" })
printf_lem_example =
    printf_lem (codes "%s=0x%X\n") (text (codes "end") ∷ word 0x80021000 ∷ []) silent

printf-IsHex_example :
    PrintsHex (codes "%X") 0x100000002 0x100000002 × PrintsHex (codes "%x") 0x100000002 2
printf-IsHex_example = printf-IsHex 0x100000002
