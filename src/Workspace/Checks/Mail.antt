-- ===== src/Workspace/Checks/Mail.antt =====
-- `checkTenantMail`
pub mod Outcome
use mksrv.Common.{
  ◌||◌, ℕ, suc, ◌+◌, ◌≡◌, ◌≢◌, ◌⊎◌, Bool, true, ◌&&◌, not, Option, none, some, List, [], ◌∷◌, ◌++◌,
  arith, ◌==◌, if◌then◌else◌, length, is_empty, drop, All, Text, txt, trim_space, to_lower,
  trim_suffix, last_index, itoa, contains,
}
use mksrv.Model.Types.{Tenant, TenantMail, TenantMailbox, DnsOverride}
use mksrv.Workspace.Report.{Report, semantic_error}
use mksrv.Workspace.Report.Outcome.{error_if}
use mksrv.Workspace.Seen.{is_dup, note, Distinct}
use mksrv.Workspace.Checks.Dns.{has_zone}

-- The keys of the map `domains`.
pub mail_domains : List Text → List Text
mail_domains [] = []
mail_domains (d ∷ domains) = to_lower (trim_suffix d (txt ".")) ∷ mail_domains domains

pub mailbox_address : TenantMailbox → Text
mailbox_address mailbox = to_lower (trim_space mailbox.address)

-- `addr[at+1:]` for the last `@`, if it stands neither first nor last.
pub address_domain : Text → Option Text
address_domain addr = elim (last_index addr b'@') [
  | none ↦ none
  | some at ↦ if at == 0 || at + 1 == length addr then none else some (drop (at + 1) addr)
]

mailbox_path : ℕ → Text
mailbox_path i = txt "$.mail.mailboxes[" ++ (itoa i ++ txt "].address")

-- The rest of a round, for an address whose domain is known.
pub check_address : Text → List Text → ℕ → List (Text × ℕ) → Text → Text → Report → Report
check_address file domains i seen addr domain report =
    error_if (is_dup seen addr)
      (error_if (not (contains domains domain)) report file (mailbox_path i)
        (txt "tenant.mail.domain"))
      file (mailbox_path i) (txt "tenant.mail.duplicate")

-- The loop over the mailboxes. A malformed address is reported and passed over.
pub check_mailboxes : Text → List Text → ℕ → List (Text × ℕ) → List TenantMailbox → Report → Report
check_mailboxes file domains i seen [] report = report
check_mailboxes file domains i seen (mailbox ∷ mailboxes) report =
    let addr = mailbox_address mailbox in
    elim (address_domain addr) [
      | none ↦
          check_mailboxes file domains (suc i) seen mailboxes
            (semantic_error report file (mailbox_path i) (txt "tenant.mail.address"))
      | some domain ↦
          check_mailboxes file domains (suc i) (note seen addr i) mailboxes
            (check_address file domains i seen addr domain report)
    ]

-- The part behind the test for a missing or empty block.
pub check_mail_block : Text → Option DnsOverride → TenantMail → Bool → Report → Report
check_mail_block file override mail mail_stack_assigned report =
    if is_empty mail.domains
    then semantic_error report file (txt "$.mail.mailboxes") (txt "tenant.mail.no_domain")
    else if not (has_zone override)
    then semantic_error report file (txt "$.mail") (txt "tenant.mail.no_zone")
    else check_mailboxes file (mail_domains mail.domains) 0 [] mail.mailboxes
        (error_if (not mail_stack_assigned) report file (txt "$.mail") (txt "tenant.mail.no_stack"))

pub check_mail : Text → Option DnsOverride → Option TenantMail → Bool → Report → Report
check_mail file override none mail_stack_assigned report = report
check_mail file override (some mail) mail_stack_assigned report =
    if is_empty mail.domains && is_empty mail.mailboxes
    then report
    else check_mail_block file override mail mail_stack_assigned report

pub check_tenant_mail : Text → Tenant → Bool → Report → Report
check_tenant_mail file tenant = check_mail file tenant.dns_override tenant.mail

-- An address with a local part and one of the declared domains.
pub record IsMailboxOk (domains : List Text) (mailbox : TenantMailbox) : Type 0 where
  pub domain : Text
  pub parts : address_domain (mailbox_address mailbox) ≡ some domain
  pub declared : contains domains domain ≡ true

abbrev pub mailbox_addresses : List TenantMailbox → List Text
mailbox_addresses [] = []
mailbox_addresses (mailbox ∷ mailboxes) = mailbox_address mailbox ∷ mailbox_addresses mailboxes

-- A block that declares anything can be served.
pub record HasValidMail (override : Option DnsOverride) (mail : TenantMail) (assigned : Bool)
    : Type 0 where
  pub some_domain : mail.domains ≢ []
  pub zone : has_zone override ≡ true
  pub server : assigned ≡ true
  pub each : All (IsMailboxOk (mail_domains mail.domains)) mail.mailboxes
  pub distinct : Distinct (mailbox_addresses mail.mailboxes)

abbrev pub MailIsValid : Option DnsOverride → Option TenantMail → Bool → Type 0
MailIsValid override none assigned = Unit
MailIsValid override (some mail) assigned =
    (mail.domains ≡ []) × (mail.mailboxes ≡ []) ⊎ HasValidMail override mail assigned
