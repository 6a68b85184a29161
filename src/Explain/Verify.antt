-- ===== src/Explain/Verify.antt =====
-- The commands that confirm a report on the machine (backend/internal/explain/explain.go,
-- `verifyCommands`).
use pmacct_suricata_analyzer.Prelude.{
  ◌||◌, List, [], ◌∷◌, ◌++◌, map, String, Option, none, some, str_eq, ◌^^◌, if◌then◌else◌,
}
use pmacct_suricata_analyzer.Prelude.Int.{ℤ}
use pmacct_suricata_analyzer.Prelude.Search.{replace_all, decimal_ℤ}
use pmacct_suricata_analyzer.Explain.Types.{Identity, Known, Program, Destination, Report, Style}

abbrev pub first_pid : List ℤ → String
first_pid [] = "<pid>"
first_pid (n ∷ _) = decimal_ℤ n

abbrev pub first_dst : List Destination → String
first_dst [] = ""
first_dst (d ∷ _) = d.dst

abbrev pub unless_empty : String → List String → List String
unless_empty s commands = if str_eq s "" then [] else commands

unfoldable pub windows_commands : Program → String → String → List String
windows_commands p pid dst =
    ("Get-Process -Id " ^^ pid ^^ " | Select-Object Path, StartTime, Company")
    ∷ (unless_empty p.exe (
          ("Get-AuthenticodeSignature '" ^^ p.exe ^^ "' | Select-Object Status, SignerCertificate")
          ∷ ("Get-FileHash '" ^^ p.exe ^^ "'   # compare with the reported sha256")
          ∷ ("(Get-Item '" ^^ p.exe
              ^^ "').VersionInfo | Format-List CompanyName, ProductName, FileVersion")
          ∷ [])
        ++ (("netstat -bano | findstr " ^^ pid)
            ∷ unless_empty dst (("Resolve-DnsName " ^^ dst ^^ " -Type PTR") ∷ [])))

abbrev pub origin_of : Option Identity → String
origin_of none = ""
origin_of (some id) = id.origin

abbrev pub package_of : Option Identity → String
package_of none = ""
package_of (some id) = id.package_name

-- By what installed the file.
unfoldable pub owner_commands : Program → List String
owner_commands p =
    let origin = origin_of p.identity in
    let owner = package_of p.identity in
    if str_eq origin "dpkg"
    then ("dpkg -S '" ^^ p.exe ^^ "' && dpkg -V " ^^ owner
        ^^ "   # owner, then verify the package's files")
      ∷ []
    else if str_eq origin "apk"
    then ("apk info -W '" ^^ p.exe ^^ "' && apk audit " ^^ owner) ∷ []
    else if str_eq origin "pacman"
    then ("pacman -Qo '" ^^ p.exe ^^ "' && pacman -Qkk " ^^ owner) ∷ []
    else if str_eq origin "snap"
    then ("snap list " ^^ owner) ∷ []
    else if str_eq origin "flatpak"
    then ("flatpak info " ^^ owner) ∷ []
    else if str_eq origin "unpackaged" || str_eq origin ""
    then ("dpkg -S '" ^^ p.exe ^^ "' 2>/dev/null || rpm -qf '" ^^ p.exe
        ^^ "' 2>/dev/null || pacman -Qo '" ^^ p.exe ^^ "'   # which package owns it, if any")
      ∷ []
    else []

unfoldable pub unix_commands : Program → String → String → List String
unfolding owner_commands
unix_commands p pid dst =
    ("ps -o pid,user,etime,cmd -p " ^^ pid)
    ∷ ("readlink /proc/" ^^ pid ^^ "/exe")
    ∷ (unless_empty p.exe
          (("sha256sum '" ^^ p.exe ^^ "'   # compare with the reported sha256") ∷ owner_commands p)
        ++ (("sudo ss -tnp | grep 'pid=" ^^ pid ^^ "'")
            ∷ (unless_empty dst (("dig -x " ^^ dst ^^ " +short") ∷ [])
                ++ unless_empty p.container
                    (("podman exec " ^^ p.container ^^ " ss -tn   # or: docker exec …") ∷ []))))

-- The entry's own commands, with the process put in.
abbrev pub known_commands : Option Known → String → List String
known_commands none pid = []
known_commands (some k) pid = map (λ v. replace_all v "<pid>" pid) k.verify

unfoldable pub verify_commands : Style → Report → List String
unfolding windows_commands unix_commands
verify_commands style rep =
    let p = rep.program in
    let pid = first_pid p.pids in
    let dst = first_dst rep.destinations in
    (if style.equal_fold p.os "windows"
      then windows_commands p pid dst
      else unix_commands p pid dst)
    ++ known_commands p.known pid
