-- ===== src/Tests/Hosts.antt =====
-- The theorem on hosts, at a name service with one host that may be down.
use okssystem.Prelude.{
  ◌≡◌, ◌≢◌, refl, [], Text, Bool, true, false, if◌then◌else◌, none, some, codes,
}
use okssystem.Calls.{HostCalls, UtsName}
use okssystem.StringMemoryArea.{c_str}
use okssystem.Host.{LocalHost, local_name, full_local_name, getfullhost}
use okssystem.Host.FullNames.{IsFullName, full_local_name_again}

abbrev system_names : UtsName
system_names = record {
  sysname = codes "Linux";
  nodename = codes "node";
  release = codes "6.1";
  version = codes "1";
  machine = codes "x86_64";
}

-- The state says whether the service answers.
abbrev service : HostCalls Bool
service = record {
  getaddrinfo = λ name up. if up then some 16777343 else none;
  getnameinfo = λ address up. if up then some (codes "node.cern.ch") else none;
  inet_ntoa = λ address. codes "127.0.0.1";
  uname = λ up. if up then some system_names else none;
  gethostname = λ up. none;
}

full_local_name_again_example :
    (full : Text) × (l : LocalHost) × IsFullName service (codes "node") true full
    × (full_local_name service none true ≡ (full, l))
    × (full ≢ []
        → (full_local_name service (some l) false ≡ (full, l))
          × (getfullhost service (some l) false ≡ (c_str full, l)))
    × (local_name service (some l) false ≡ (codes "node", l))
full_local_name_again_example = full_local_name_again service system_names true false refl
