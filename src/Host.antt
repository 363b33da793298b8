-- ===== src/Host.antt =====
-- src/Host.cpp: names and addresses of hosts, with a cached full name, and the local host.
pub mod FullNames
use okssystem.Prelude.{
  ℕ, Bool, true, false, not, ◌==◌, if◌then◌else◌, Option, none, some, [], ◌∷◌, ◌++◌, Text, codes,
  is_empty, text_eq,
}
use okssystem.Calls.{HostCalls, UtsName}
use okssystem.StringMemoryArea.{c_str}

pub record Host : Type 0 where
  pub m_name : Text
  pub m_full_name : Text

-- `Host(const std::string &)`
abbrev pub host_of_name : Text → Host
host_of_name s_name = record { m_name = s_name; m_full_name = [] }

-- `Host(const Host &)`
abbrev pub copy_host : Host → Host
copy_host other =
    if not (is_empty other.m_full_name)
    then record { m_name = other.m_name; m_full_name = other.m_full_name }
    else host_of_name other.m_name

pub record LocalHost : Type 0 where
  pub host : Host
  pub m_os_name : Text
  pub m_release : Text
  pub m_version : Text
  pub m_machine : Text
  pub m_description : Text

-- The object behind `description`: what it returns is its field.
unfoldable pub description : LocalHost → LocalHost
description l =
    if is_empty l.m_description
    then record l {
      m_description = l.m_os_name ++ (codes " " ++ (l.m_release ++ (codes "/" ++ l.m_machine)));
    }
    else l

abbrev bare_host : Text → LocalHost
bare_host name = record {
  host = host_of_name name;
  m_os_name = [];
  m_release = [];
  m_version = [];
  m_machine = [];
  m_description = [];
}

module _ {W : Type 0} (net : HostCalls W) where
  -- `resolve(name)`
  unfoldable pub resolve_name : Text → W → ℕ
  resolve_name name w = elim (net.getaddrinfo name w) [ none ↦ 0 | some address ↦ address ]

  -- `resolve(address)`; `to_string` is `inet_ntoa`.
  unfoldable pub resolve_address : ℕ → W → Text
  resolve_address address w = elim (net.getnameinfo address w) [
    | none ↦ net.inet_ntoa address
    | some buffer ↦ buffer
  ]

  unfoldable pub expand : Text → W → Text
  unfolding resolve_name resolve_address
  expand name w =
      let address = resolve_name name w in if address == 0 then name else resolve_address address w

  -- `Host(struct sockaddr_in)`
  unfoldable pub host_of_address : ℕ → W → Host
  unfolding resolve_address
  host_of_address ip_addr w =
      let name = resolve_address ip_addr w in record { m_name = name; m_full_name = name }

  unfoldable pub ip : Host → W → ℕ
  unfolding resolve_name
  ip h w = resolve_name h.m_name w

  unfoldable pub ip_string : Host → W → Text
  unfolding ip
  ip_string h w = net.inet_ntoa (ip h w)

  -- The object behind `full_name`: what it returns is its field.
  unfoldable pub full_name : Host → W → Host
  unfolding expand
  full_name h w = if is_empty h.m_full_name then record h { m_full_name = expand h.m_name w } else h

  -- `equals`, of two objects: the answer. Both objects are changed by `full_name`.
  unfoldable pub same_host : Host → Host → W → Bool
  unfolding full_name
  same_host a b w = text_eq (full_name a w).m_full_name (full_name b w).m_full_name

  abbrev named_host : Option Text → LocalHost
  named_host none = bare_host []
  named_host (some buffer) = bare_host buffer

  -- `LocalHost()`
  unfoldable pub local_host : W → LocalHost
  local_host w = elim (net.uname w) [
    | none ↦ named_host (net.gethostname w)
    | some u ↦ record {
      host = host_of_name u.nodename;
      m_os_name = u.sysname;
      m_release = u.release;
      m_version = u.version;
      m_machine = u.machine;
      m_description = [];
    }
  ]

  -- `LocalHost::instance`: the value of s_instance before the call, and the one behind it.
  unfoldable pub local_instance : Option LocalHost → W → LocalHost
  unfolding local_host
  local_instance none w = local_host w
  local_instance (some l) w = l

  -- `operator!=`
  abbrev pub not_same_host : Host → Host → W → Bool
  not_same_host a b w = not (same_host a b w)

  -- `operator<<`
  abbrev pub host_string : Host → W → Text
  host_string h w = (full_name h w).m_full_name

  -- `local_name`: the name, and s_instance behind the call.
  unfoldable pub local_name : Option LocalHost → W → Text × LocalHost
  unfolding local_instance
  local_name s_instance w = let l = local_instance s_instance w in (l.host.m_name, l)

  -- `full_local_name`, which keeps the full name in the instance.
  unfoldable pub full_local_name : Option LocalHost → W → Text × LocalHost
  unfolding local_instance full_name
  full_local_name s_instance w =
      let l = local_instance s_instance w in
      let h = full_name l.host w in (h.m_full_name, record l { host = h })

  -- `getfullhost`
  unfoldable pub getfullhost : Option LocalHost → W → Text × LocalHost
  unfolding full_local_name c_str
  getfullhost s_instance w = let (name, l) = full_local_name s_instance w in (c_str name, l)

-- `operator==` and `operator!=` of two local hosts
abbrev pub same_local : LocalHost → LocalHost → Bool
same_local a b = true

abbrev pub not_same_local : LocalHost → LocalHost → Bool
not_same_local a b = false
