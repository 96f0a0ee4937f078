-- ===== src/Workspace/Checks/Mail/Outcome.antt =====
-- When `checkTenantMail` adds no error.
use mksrv.Common.{
  ℕ, suc, ◌≡◌, refl, ap, inl, inr, Bool, true, false, ◌&&◌, Option, none, some, List, [], ◌∷◌,
  arith, Bool-cases, Option-cases, is_empty, List-cases, All, Text, contains,
}
use mksrv.Model.Types.{Tenant, TenantMail, TenantMailbox, DnsOverride}
use mksrv.Workspace.Report.{Report}
use mksrv.Workspace.Report.Outcome.{
  Reports, Reports-refl, Reports-trans, Reports-iff, Reports-error, Reports-error_if,
  Reports-and_if,
}
use mksrv.Workspace.Seen.{is_dup, note, IsFresh, IsFresh-start, IsFresh-cons}
use mksrv.Workspace.Checks.Dns.{has_zone}
use mksrv.Workspace.Checks.Mail.{
  mail_domains, mailbox_address, mailbox_addresses, address_domain, check_address, check_mailboxes,
  check_mail_block, check_mail, check_tenant_mail, IsMailboxOk, HasValidMail, MailIsValid,
}

check_address_lem :
    (file : Text) (domains : List Text) (i : ℕ) (seen : List (Text × ℕ)) (addr domain : Text)
    (report : Report)
    → Reports report
        (check_address file domains i seen addr domain report)
        ((contains domains domain ≡ true) × (is_dup seen addr ≡ false))
unfolding check_address
check_address_lem file domains i seen addr domain report =
    Reports-iff ((λ h. (ground arith, h.1)), (λ h. (ground arith, h.1)))
      (Reports-and_if _ _ _ _ (Reports-error_if _ _ _ _ report))

module _ (domains : List Text) where
  check_mailboxes_lem :
      (file : Text) (i : ℕ) (seen : List (Text × ℕ)) (mailboxes : List TenantMailbox)
      (report : Report)
      → Reports report
          (check_mailboxes file domains i seen mailboxes report)
          (All (IsMailboxOk domains) mailboxes × IsFresh seen (mailbox_addresses mailboxes))
  unfolding check_mailboxes
  check_mailboxes_lem file i seen [] report =
      Reports-iff ((λ h. (tt, (tt, tt))), (λ h. tt)) (Reports-refl report)
  check_mailboxes_lem file i seen (mailbox ∷ mailboxes) report =
      let addr = mailbox_address mailbox in
      let addrs = mailbox_addresses mailboxes in
      elim (Option-cases (address_domain addr)) [
        | inl malformed ↦
            rw (malformed, check_mailboxes)
              (Reports-iff ((λ h. absurd h.0), (λ h. cc (malformed, h.0.0.parts)))
                (Reports-trans (Reports-error file _ _ report)
                  (check_mailboxes_lem file (suc i) seen mailboxes _)))
        | inr (domain, found) ↦
            rw (found, check_mailboxes)
              (Reports-iff
                (
                  (λ h.
                      let ok : IsMailboxOk domains mailbox = record {
                        domain = domain;
                        parts = found;
                        declared = h.0.0;
                      } in
                      ((ok, h.1.0), (IsFresh-cons seen addr i addrs).0 (h.0.1, h.1.1))),
                  (λ h.
                      let fresh = (IsFresh-cons seen addr i addrs).1 h.1 in
                      (
                        (ground (arith, h.0.0.parts, h.0.0.declared, found), fresh.0),
                        (h.0.1, fresh.1),
                      )),
                )
                (Reports-trans (check_address_lem file domains i seen addr domain report)
                  (check_mailboxes_lem file (suc i) (note seen addr i) mailboxes _)))
      ]

both_empty :
    (xs : List Text) (ys : List TenantMailbox)
    → is_empty xs && is_empty ys ≡ true
    → (xs ≡ []) × (ys ≡ [])
both_empty [] [] h = (refl, refl)
both_empty [] (y ∷ ys) h = cc
both_empty (x ∷ xs) ys h = cc

check_mail_block_lem :
    (file : Text) (override : Option DnsOverride) (mail : TenantMail) (assigned : Bool)
    (report : Report)
    → Reports report
        (check_mail_block file override mail assigned report)
        (HasValidMail override mail assigned)
unfolding check_mail_block
check_mail_block_lem file override mail assigned report = elim (List-cases mail.domains) [
  | inl nothing ↦
      rw (ap is_empty nothing, check_mail_block)
        (Reports-iff ((λ h. absurd h), (λ h. h.some_domain nothing))
          (Reports-error file _ _ report))
  | inr something ↦ elim (Bool-cases (has_zone override)) [
    | inr absent ↦
        rw (something.1, check_mail_block, absent)
          (Reports-iff ((λ h. absurd h), (λ h. cc (absent, h.zone)))
            (Reports-error file _ _ report))
    | inl zone ↦
        rw (something.1, check_mail_block, zone)
          (Reports-iff
            (
              (λ h. record {
                some_domain = something.0;
                zone = zone;
                server = ground arith;
                each = h.1.0;
                distinct = h.1.1.1;
              }),
              (λ h. (
                ground (arith, h.server),
                (h.each, (IsFresh-start ℕ (mailbox_addresses mail.mailboxes)).1 h.distinct),
              )),
            )
            (Reports-trans (Reports-error_if _ _ _ _ report)
              (check_mailboxes_lem (mail_domains mail.domains) file 0 [] mail.mailboxes _)))
  ]
]

check_mail_lem :
    (file : Text) (override : Option DnsOverride) (mail : Option TenantMail) (assigned : Bool)
    (report : Report)
    → Reports report
        (check_mail file override mail assigned report)
        (MailIsValid override mail assigned)
unfolding check_mail
check_mail_lem file override none assigned report = Reports-refl report
check_mail_lem file override (some mail) assigned report =
    elim (Bool-cases (is_empty mail.domains && is_empty mail.mailboxes)) [
      | inl e ↦
          rw (e, check_mail)
            (Reports-iff ((λ h. inl (both_empty mail.domains mail.mailboxes e)), (λ h. tt))
              (Reports-refl report))
      | inr e ↦
          rw (e, check_mail)
            (Reports-iff
              (
                (λ h. inr h),
                (λ h. elim h [
                  | inl (no_domain, no_mailbox) ↦
                      absurd (cc (e, ap is_empty no_domain, ap is_empty no_mailbox))
                  | inr valid ↦ valid
                ]),
              )
              (check_mail_block_lem file override mail assigned report))
    ]

-- `checkTenantMail` adds no error exactly when the block is missing or declares nothing, or when it
-- has a domain, the tenant has a Route 53 zone of its own, some host carries the mail stack, every
-- mailbox address has a local part and a declared domain, and no two addresses are the same up to
-- case and surrounding space.
pub check_tenant_mail_lem :
    (file : Text) (tenant : Tenant) (assigned : Bool) (report : Report)
    → Reports report
        (check_tenant_mail file tenant assigned report)
        (MailIsValid tenant.dns_override tenant.mail assigned)
unfolding check_tenant_mail
check_tenant_mail_lem file tenant assigned report =
    check_mail_lem file tenant.dns_override tenant.mail assigned report
